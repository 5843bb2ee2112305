-- ===== src/Thread/Orders/Settles.antt =====
-- What a spawned thread and the owner of its handle leave, in any order of their turns.
use ksync.Base.{ℕ, ◌+◌, ◌≡◌, ◌==◌, refl, Bool, true, false, not, ◌&&◌, List, [], ◌∷◌, ◌++◌, arith}
use ksync.Kernel.{Kernel, Log, pure, Returns, Returns-and, and_then-Returns, ◌>>=◌}
use ksync.Kernel.Ledger.{one_if, total, boxes, unboxes, opens, closes, takes, gives, live, sound}
use ksync.NtStatus.{cvt, new}
use ksync.Object.Balance.{ObLaws}
use ksync.Thread
use ksync.Thread.{JoinHandle, spawn, join, join_open}
use ksync.Thread.Join.{WaitLaws, Joined, join-Joined}
use ksync.Thread.Orders.{
  Child, starting, freeing, exited, Owner, holding, over, Threads, has_box, owner_turn, child_turn,
  turn, turns, last_turns,
}

abbrev pub has_handle : Owner → Bool
has_handle holding = true
has_handle over = false

-- `l0` is the log in which the thread was spawned.
abbrev pub Inv : (context raw x : ℕ) → Log → Threads → Log → Type 0
Inv context raw x l0 s l =
    (sound l ≡ true)
    × (live context l ≡ has_box s.child)
    × (total boxes l ≡ total boxes l0)
    × (total unboxes l ≡ total unboxes l0 + one_if (not (has_box s.child)))
    × (total (opens x) l ≡ total (opens x) l0)
    × (total (closes x) l ≡ total (closes x) l0 + one_if (not (has_handle s.owner) && (raw == x)))
    × (total (takes x) l + total (gives x) l0 ≡ total (takes x) l0 + total (gives x) l)

-- `join` touches no box.
join-live :
    (thread_type p : ℕ) (self : JoinHandle) (k : Kernel) (l : Log)
    → ObLaws k
    → WaitLaws k
    → Returns (join thread_type self k l) (λ r l'. live p l' ≡ live p l)
unfolding join cvt new
join-live thread_type p self k l laws waits = grind (arith, laws.reference_plain, waits.unlimited)

module _ (thread_type : ℕ) (self : JoinHandle) (joins : Bool) (context x : ℕ) (l0 : Log)
    (k : Kernel) (laws : ObLaws k) (waits : WaitLaws k) where
  child_turn-Inv :
      (child : Child) (owner : Owner) (l : Log)
      → Inv context self.raw x l0 (record { child = child; owner = owner }) l
      → Returns
          (child_turn context (record { child = child; owner = owner }) child k l)
          (Inv context self.raw x l0)
  unfolding child_turn
  child_turn-Inv starting owner l h = ground arith
  child_turn-Inv freeing owner l h = ground arith
  child_turn-Inv exited owner l h = h

  join_turn-Inv :
      (l : Log)
      → Inv context self.raw x l0 (record { child = exited; owner = holding }) l
      → Returns
          ((do r ← join thread_type self; pure (record { child = exited; owner = over })) k l)
          (Inv context self.raw x l0)
  join_turn-Inv l h =
      and_then-Returns {P = λ r l'. Joined x self l l' × (live context l' ≡ live context l)}
        (Inv context self.raw x l0) (join thread_type self k l)
        (λ r. pure (record { child = exited; owner = over })) k
        (Returns-and (λ r. Joined x self l) (λ r l'. live context l' ≡ live context l)
          (join thread_type self k l) (join-Joined thread_type x self k l laws waits)
          (join-live thread_type context self k l laws waits))
        (λ r l1 joined. ground arith)

  owner_turn-Inv :
      (joins : Bool) (child : Child) (owner : Owner) (l : Log)
      → Inv context self.raw x l0 (record { child = child; owner = owner }) l
      → Returns
          (owner_turn thread_type self joins (record { child = child; owner = owner }) owner k l)
          (Inv context self.raw x l0)
  unfolding owner_turn Thread.drop
  owner_turn-Inv true starting holding l h = h
  owner_turn-Inv true freeing holding l h = h
  owner_turn-Inv true exited holding l h = join_turn-Inv l h
  owner_turn-Inv false child holding l h = ground arith
  owner_turn-Inv true child over l h = h
  owner_turn-Inv false child over l h = h

  turn-Inv :
      (s : Threads) (who : Bool) (l : Log)
      → Inv context self.raw x l0 s l
      → Returns (turn thread_type self joins context s who k l) (Inv context self.raw x l0)
  unfolding turn
  turn-Inv s true l h = child_turn-Inv s.child s.owner l h
  turn-Inv s false l h = owner_turn-Inv joins s.child s.owner l h

  pub turns-Inv :
      (s : Threads) (order : List Bool) (l : Log)
      → Inv context self.raw x l0 s l
      → Returns (turns thread_type self joins context s order k l) (Inv context self.raw x l0)
  unfolding turns
  turns-Inv s [] l h = h
  turns-Inv s (who ∷ order) l h =
      and_then-Returns {P = Inv context self.raw x l0} (Inv context self.raw x l0)
        (turn thread_type self joins context s who k l)
        (λ s'. turns thread_type self joins context s' order) k (turn-Inv s who l h)
        (λ s' l1 h'. turns-Inv s' order l1 h')

  abbrev pub Ended : Threads → Log → Type 0
  Ended s l = (s.child ≡ exited) × (s.owner ≡ over)

  owner_turn-Ended :
      (joins : Bool) (owner : Owner) (l : Log)
      → Returns
          (owner_turn thread_type self joins (record { child = exited; owner = owner }) owner k l)
          Ended
  unfolding owner_turn Thread.drop
  owner_turn-Ended true holding l =
      and_then-Returns {P = λ r. Joined x self l} Ended (join thread_type self k l)
        (λ r. pure (record { child = exited; owner = over })) k
        (join-Joined thread_type x self k l laws waits) (λ r l1 joined. (refl, refl))
  owner_turn-Ended false holding l = (refl, refl)
  owner_turn-Ended true over l = (refl, refl)
  owner_turn-Ended false over l = (refl, refl)

  last_turn-Ended :
      (owner : Owner) (l : Log)
      → Returns
          (turns thread_type self joins context
            (record { child = exited; owner = owner })
            (false ∷ [])
            k
            l)
          Ended
  unfolding turns turn
  last_turn-Ended owner l =
      and_then-Returns {P = Ended} Ended
        (owner_turn thread_type self joins (record { child = exited; owner = owner }) owner k l)
        (λ s'. turns thread_type self joins context s' []) k (owner_turn-Ended joins owner l)
        (λ s' l1 e. e)

  last_turns-Ended :
      (child : Child) (owner : Owner) (l : Log)
      → Returns
          (turns thread_type self joins context
            (record { child = child; owner = owner })
            last_turns
            k
            l)
          Ended
  unfolding turns turn child_turn
  last_turns-Ended starting owner l = last_turn-Ended owner _
  last_turns-Ended freeing owner l = last_turn-Ended owner _
  last_turns-Ended exited owner l = last_turn-Ended owner l

  pub turns-Ended :
      (s : Threads) (order : List Bool) (l : Log)
      → Inv context self.raw x l0 s l
      → Returns (turns thread_type self joins context s (order ++ last_turns) k l) Ended
  unfolding turns
  turns-Ended s [] l h = last_turns-Ended s.child s.owner l
  turns-Ended s (who ∷ order) l h =
      and_then-Returns {P = Inv context self.raw x l0} Ended
        (turn thread_type self joins context s who k l)
        (λ s'. turns thread_type self joins context s' (order ++ last_turns)) k (turn-Inv s who l h)
        (λ s' l1 h'. turns-Ended s' order l1 h')
