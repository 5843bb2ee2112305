-- ===== src/Thread/Join.antt =====
-- References, handles and boxes of thread.rs.
use mathlib.Core.Path.{subst}
use ksync.Base.{
  inl, inr, Result-cases, ℕ, zero, suc, ◌+◌, ◌≡◌, ◌≢◌, ◌==◌, true, false, arith, Result, ok, err,
}
use ksync.Kernel.{Kernel, Log, M, pure, Returns, Returns-run, ◌>>◌, ◌>>=◌}
use ksync.Kernel.Abi
use ksync.Kernel.Ledger.{
  thread_context_of, opens, total, takes, gives, closes, boxes, unboxes, live, sound, is_success,
  one_if,
}
use ksync.NtStatus.{NtError, new, cvt}
use ksync.Object.Balance.{NtSuccess, ObLaws, Refs}
use ksync.Thread.{start_routine_stub, JoinHandle, spawn, is_finished, join}

-- A wait with no time limit that is not alertable ends with STATUS_SUCCESS.
pub record WaitLaws (k : Kernel) : Type 0 where
  pub unlimited : (l : Log) (o : ℕ) → (k l (Abi.ke_wait_for_single_object o false)).ret ≡ 0

-- Where referencing succeeds with STATUS_SUCCESS only and an unlimited wait succeeds, `join` gives
-- back every reference that it takes and closes its own handle once, whatever it returns.
pub join-balanced :
    (thread_type : ℕ) (self : JoinHandle) (k : Kernel) (l : Log)
    → ObLaws k
    → WaitLaws k
    → (x : ℕ)
    → Returns (join thread_type self k l) λ r l'.
      (total (takes x) l' + total (gives x) l ≡ total (takes x) l + total (gives x) l')
      × (total (closes x) l' ≡ total (closes x) l + one_if (self.raw == x))
unfolding join cvt new
join-balanced thread_type self k l laws waits x =
    grind (arith, laws.reference_plain, waits.unlimited)

-- `handle` can be referenced, and names the object `o`.
abbrev pub Names : Kernel → ℕ → ℕ → Type 0
Names k handle o =
    (l : Log) (a t : ℕ)
    → (is_success (k l (Abi.ob_reference_object_by_handle handle a t)).ret ≡ true)
      × ((k l (Abi.ob_reference_object_by_handle handle a t)).out ≡ o)

is_finished-takes :
    (thread_type : ℕ) (self : JoinHandle) (o : ℕ) (k : Kernel) (l : Log)
    → NtSuccess k
    → Names k self.raw o
    → Returns (is_finished thread_type self k l) (λ b. Refs o 1 0 l)
unfolding is_finished
is_finished-takes thread_type self o k l signs names = grind (arith, signs, names)

-- A caller that polls `n` times.
unfoldable pub poll : ℕ → (thread_type : ℕ) → JoinHandle → M (Unit {0})
unfolding is_finished
poll zero thread_type self = pure tt
poll (suc n) thread_type self = is_finished thread_type self >> poll n thread_type self

-- Where the handle names an object and `nt_success` tells by the sign bit, `n` polls of a thread
-- take `n` references to the object and give none back.
pub poll-leak :
    (n thread_type : ℕ) (self : JoinHandle) (o : ℕ) (k : Kernel) (l : Log)
    → NtSuccess k
    → Names k self.raw o
    → Returns (poll n thread_type self k l) (λ _. Refs o n 0 l)
unfolding poll
poll-leak zero thread_type self o k l signs names = omega arith
poll-leak (suc n) thread_type self o k l signs names =
    let (b, l', e, once) =
      Returns-run {P = λ b. Refs o 1 0 l} (is_finished thread_type self k l)
        (is_finished-takes thread_type self o k l signs names) in
    let (u, l'', e', rest) =
      Returns-run {P = λ _. Refs o n 0 l'} (poll n thread_type self k l')
        (poll-leak n thread_type self o k l' signs names) in
    rw (e, e') (omega arith)

-- What `spawn` leaves at the box of the closure: still there for the new thread, or dropped.
abbrev pub Spawned : Log → Result JoinHandle NtError → Log → Type 0
Spawned l (ok self) l' = (total boxes l' ≡ total boxes l + 1) × (total unboxes l' ≡ total unboxes l)
Spawned l (err e) l' =
    (e.code ≢ 0) × (total boxes l' ≡ total boxes l + 1) × (total unboxes l' ≡ total unboxes l + 1)

-- Where `nt_success` tells by the sign bit, `spawn` never panics; it returns a handle and leaves
-- the box of the closure to the new thread, or returns a nonzero code and has dropped the box, and
-- it misuses no box.
pub spawn-Spawned :
    (k : Kernel) (l : Log)
    → NtSuccess k
    → Returns (spawn k l) λ r l'. Spawned l r l' × (sound l' ≡ sound l)
unfolding spawn new
spawn-Spawned k l signs = grind (arith, signs)

-- The start routine runs the closure of a live box once and drops the box.
pub start_routine_stub-sound :
    (context : ℕ) (k : Kernel) (l : Log)
    → live context l ≡ true
    → sound l ≡ true
    → Returns (start_routine_stub context k l) λ _ l'.
      (sound l' ≡ true) × (live context l' ≡ false) × (total unboxes l' ≡ total unboxes l + 1)
unfolding start_routine_stub
start_routine_stub-sound context k l alive fine = ground arith

-- What `spawn` leaves of the closure's box and the new thread's handle.
abbrev pub Begun : ℕ → Log → Result JoinHandle NtError → Log → Type 0
Begun x l (ok self) l' =
    (sound l' ≡ true)
    × (live (thread_context_of self.raw l') l' ≡ true)
    × (total boxes l' ≡ total boxes l + 1)
    × (total unboxes l' ≡ total unboxes l)
    × (total (opens x) l' ≡ total (opens x) l + one_if (self.raw == x))
    × (total (closes x) l' ≡ total (closes x) l)
    × (total (takes x) l' + total (gives x) l ≡ total (takes x) l + total (gives x) l')
Begun x l (err e) l' =
    (sound l' ≡ true)
    × (total boxes l' ≡ total boxes l + 1)
    × (total unboxes l' ≡ total unboxes l + 1)
    × (total (opens x) l' ≡ total (opens x) l)
    × (total (closes x) l' ≡ total (closes x) l)
    × (total (takes x) l' + total (gives x) l ≡ total (takes x) l + total (gives x) l')

pub spawn-Begun :
    (x : ℕ) (k : Kernel) (l : Log) → NtSuccess k → sound l ≡ true → Returns (spawn k l) (Begun x l)
unfolding spawn new
spawn-Begun x k l signs fine = grind (arith, signs)

-- What `join` leaves alone, and the handle that it closes.
abbrev pub Joined : ℕ → JoinHandle → Log → Log → Type 0
Joined x self l l' =
    (sound l' ≡ sound l)
    × (total boxes l' ≡ total boxes l)
    × (total unboxes l' ≡ total unboxes l)
    × (total (opens x) l' ≡ total (opens x) l)
    × (total (closes x) l' ≡ total (closes x) l + one_if (self.raw == x))
    × (total (takes x) l' + total (gives x) l ≡ total (takes x) l + total (gives x) l')

pub join-Joined :
    (thread_type x : ℕ) (self : JoinHandle) (k : Kernel) (l : Log)
    → ObLaws k
    → WaitLaws k
    → Returns (join thread_type self k l) (λ r. Joined x self l)
unfolding join cvt new
join-Joined thread_type x self k l laws waits = grind (arith, laws.reference_plain, waits.unlimited)

-- What the start routine does, for the books of `thread_life`.
abbrev Ran : ℕ → Log → Log → Type 0
Ran x l l' =
    (sound l' ≡ true)
    × (total boxes l' ≡ total boxes l)
    × (total unboxes l' ≡ total unboxes l + 1)
    × (total (opens x) l' ≡ total (opens x) l)
    × (total (closes x) l' ≡ total (closes x) l)
    × (total (takes x) l' + total (gives x) l ≡ total (takes x) l + total (gives x) l')

start_routine_stub-Ran :
    (context x : ℕ) (k : Kernel) (l : Log)
    → live context l ≡ true
    → sound l ≡ true
    → Returns (start_routine_stub context k l) (λ u. Ran x l)
unfolding start_routine_stub
start_routine_stub-Ran context x k l alive fine = ground arith

-- A thread is spawned, runs its closure, and is joined.
unfoldable pub thread_life : (thread_type : ℕ) → M (Unit {0})
thread_life thread_type = do
  r ← spawn
  elim r [
    | err e ↦ pure tt
    | ok self ↦ λ k l.
        (start_routine_stub (thread_context_of self.raw l)
            >> (do j ← join thread_type self; pure tt))
          k l
  ]

-- From a sound state, where `nt_success` tells by the sign bit, referencing succeeds with STATUS_SUCCESS
-- only, and an unlimited wait succeeds: a thread that is spawned, runs, and is joined uses its closure
-- soundly, and afterwards the closure's box is dropped, the one handle that was opened is closed, and
-- every reference is given back; so too when the thread cannot be created.
pub thread_life-settles :
    (thread_type x : ℕ) (k : Kernel) (l : Log)
    → NtSuccess k
    → ObLaws k
    → WaitLaws k
    → sound l ≡ true
    → Returns (thread_life thread_type k l) λ u l'.
      (sound l' ≡ true)
      × (total boxes l' ≡ total boxes l + 1)
      × (total unboxes l' ≡ total unboxes l + 1)
      × (total (opens x) l' + total (closes x) l ≡ total (opens x) l + total (closes x) l')
      × (total (takes x) l' + total (gives x) l ≡ total (takes x) l + total (gives x) l')
unfolding thread_life
thread_life-settles thread_type x k l signs laws waits fine =
    let (r, l1, e1, begun) =
      Returns-run {P = Begun x l} (spawn k l) (spawn-Begun x k l signs fine) in
    elim (Result-cases r) [
      | inr (e, bad) ↦
          let over : Begun x l (err e) l1 = subst (λ r. Begun x l r l1) bad begun in
          rw (e1, bad) (ground (arith, over))
      | inl (self, good) ↦
          let (sound1, alive, b, u, o, c, refs) : Begun x l (ok self) l1 =
            subst (λ r. Begun x l r l1) good begun in
          let (v, l2, e2, ran) =
            Returns-run {P = λ u. Ran x l1}
              (start_routine_stub (thread_context_of self.raw l1) k l1)
              (start_routine_stub-Ran (thread_context_of self.raw l1) x k l1 alive sound1) in
          let (j, l3, e3, joined) =
            Returns-run {P = λ r. Joined x self l2} (join thread_type self k l2)
              (join-Joined thread_type x self k l2 laws waits) in
          rw (e1, good, e2, e3) (ground (arith, ran, joined))
    ]
