-- ===== src/Sync/Sequences.antt =====
-- Sequences of operations on an `Event` of event.rs and on a `Semaphore` of sema.rs.
use ksync.Base.{
  ℕ, ◌+◌, ◌-◌, ◌≤◌, ◌≡◌, Bool, true, false, not, ◌==◌, List, [], ◌∷◌, if◌then◌else◌, arith,
}
use ksync.Kernel.{Kernel, Log, M, pure, Returns, ◌>>=◌, ◌>>◌}
use ksync.Kernel.Abi
use ksync.Kernel.Ledger.{signaled, sema_of}
use ksync.Kernel.Sequences.{sequence, references, Fines, Agrees, sequence-references}
use ksync.Object.Wait.{wait_for, success, due_from_nanos}
use ksync.Sync.{
  Event, event_set, event_clear, event_reset, event_state, Semaphore, sema_release,
  release_wait_for, sema_state,
}
use ksync.Sync.Laws.{EventLaws}

pub data EventOp : Type 0 where
  set clear reset get_state : EventOp

unfoldable pub event_op : Event → EventOp → M (List Bool)
unfolding event_set event_clear event_reset event_state
event_op e set = do event_set e; pure []
event_op e clear = do event_clear e; pure []
event_op e reset = do b ← event_reset e; pure (b ∷ [])
event_op e get_state = do b ← event_state e; pure (b ∷ [])

-- The reference: an event is a Boolean.
abbrev pub event_reference : EventOp → Bool → Bool × List Bool
event_reference set b = (true, [])
event_reference clear b = (false, [])
event_reference reset b = (false, b ∷ [])
event_reference get_state b = (b, b ∷ [])

-- Any operation may come at any time.
abbrev pub Always : {O S : Type 0} → O → S → Type 0
Always o s = Unit

Always-Fines : (os : List EventOp) (b : Bool) → Fines event_reference Always os b
Always-Fines [] b = tt
Always-Fines (o ∷ os) b = (tt, Always-Fines os (event_reference o b).0)

event_op-Agrees :
    (e : Event) (k : Kernel)
    → EventLaws k
    → (o : EventOp) (l : Log) → Always o (signaled e.raw l)
    → Returns (event_op e o k l) (
        Agrees
          (event_op e)
          event_reference
          (signaled e.raw)
          Always
          k
          (event_reference o (signaled e.raw l)))
unfolding event_op
event_op-Agrees e k laws o l fine =
    ground (arith, laws.reset_reports l e.raw, laws.read_reports l e.raw)

-- Over a kernel that reports the state of events, any sequence of set, clear, reset and get_state on
-- an event answers as the same sequence on a Boolean, and leaves the event signaled as the Boolean is.
pub event_ops_refine :
    (e : Event) (os : List EventOp) (k : Kernel) (l : Log)
    → EventLaws k
    → Returns (sequence (event_op e) os k l) λ answers l'.
      (answers ≡ (references event_reference os (signaled e.raw l)).1)
      × (signaled e.raw l' ≡ (references event_reference os (signaled e.raw l)).0)
event_ops_refine e os k l laws =
    sequence-references (event_op e) event_reference (signaled e.raw) Always k
      (event_op-Agrees e k laws) os l (Always-Fines os (signaled e.raw l))

pub data SemaOp : Type 0 where
  release : (count : ℕ) → SemaOp
  release_then_wait : (count nanos : ℕ) → SemaOp
  wait_some : (nanos : ℕ) → SemaOp
  read : SemaOp

unfoldable pub sema_op : Semaphore → SemaOp → M (List Bool)
unfolding sema_release release_wait_for wait_for sema_state success
sema_op self (release n) = do sema_release self n; pure []
sema_op self (release_then_wait n nanos) = do
  w ← release_wait_for self n nanos
  pure (success w ∷ [])
sema_op self (wait_some nanos) = do w ← wait_for self.raw nanos false; pure (success w ∷ [])
sema_op self read = do b ← sema_state self; pure (b ∷ [])

-- The reference: a semaphore is a number, and a wait that finds nothing runs out of time.
abbrev pub take_one : ℕ → ℕ × List Bool
take_one c = (c - 1, not (c == 0) ∷ [])

abbrev pub sema_reference : SemaOp → ℕ × ℕ → (ℕ × ℕ) × List Bool
sema_reference (release n) (c, m) = ((c + n, m), [])
sema_reference (release_then_wait n nanos) (c, m) = ((c + n - 1, m), not (c + n == 0) ∷ [])
sema_reference (wait_some nanos) (c, m) = ((c - 1, m), not (c == 0) ∷ [])
sema_reference read (c, m) = ((c, m), not (c == 0) ∷ [])

-- A release stays within the limit.
abbrev pub Within : SemaOp → ℕ × ℕ → Type 0
Within (release n) (c, m) = c + n ≤ m
Within (release_then_wait n nanos) (c, m) = c + n ≤ m
Within _ s = Unit

-- The kernel reports whether the count of a semaphore is zero, and a wait with a time limit succeeds
-- when it is not and runs out of time when it is.
pub record SemaLaws (k : Kernel) : Type 0 where
  pub read_reports :
      (l : Log) (p : ℕ)
      → not ((k l (Abi.ke_read_state_semaphore p)).ret == 0) ≡ not ((sema_of p l).0 == 0)
  pub wait_reports :
      (l : Log) (p due : ℕ)
      → (k l (Abi.ke_wait_for_single_object_timeout p false due)).ret
        ≡ (if (sema_of p l).0 == 0 then 0x102 else 0)

sema_op-Agrees :
    (self : Semaphore) (k : Kernel)
    → SemaLaws k
    → (o : SemaOp) (l : Log) → Within o (sema_of self.raw l)
    → Returns (sema_op self o k l) (
        Agrees
          (sema_op self)
          sema_reference
          (sema_of self.raw)
          Within
          k
          (sema_reference o (sema_of self.raw l)))
unfolding sema_op
sema_op-Agrees self k laws (release n) l fine = ground arith
sema_op-Agrees self k laws (release_then_wait n nanos) l fine = grind (arith, laws.wait_reports)
sema_op-Agrees self k laws (wait_some nanos) l fine =
    ground (arith, laws.wait_reports l self.raw (due_from_nanos nanos))
sema_op-Agrees self k laws read l fine = ground (arith, laws.read_reports l self.raw)

-- Over a kernel that keeps the count, any sequence of releases, waits with a time limit and reads on a
-- semaphore, in which no release passes the limit, answers as the same sequence on a number, and leaves
-- the semaphore with that count and its limit.
pub sema_ops_refine :
    (self : Semaphore) (os : List SemaOp) (k : Kernel) (l : Log)
    → SemaLaws k
    → Fines sema_reference Within os (sema_of self.raw l)
    → Returns (sequence (sema_op self) os k l) λ answers l'.
      (answers ≡ (references sema_reference os (sema_of self.raw l)).1)
      × (sema_of self.raw l' ≡ (references sema_reference os (sema_of self.raw l)).0)
sema_ops_refine self os k l laws fine =
    sequence-references (sema_op self) sema_reference (sema_of self.raw) Within k
      (sema_op-Agrees self k laws) os l fine
