-- ===== src/Thread/Orders.antt =====
-- thread.rs: a spawned thread and the owner of its `JoinHandle`, who joins it or drops the handle, in
-- any order of their turns.
pub mod Settles
pub mod Whole
use ksync.Base.{
  ℕ, ◌+◌, ◌≡◌, ◌==◌, refl, Bool, true, false, not, ◌&&◌, if◌then◌else◌, List, [], ◌∷◌, ◌++◌, Result,
  ok, err, arith,
}
use ksync.Kernel.{
  Run, done, panicked, fault, Kernel, Log, M, pure, emit, Returns, Returns-and, and_then-Returns,
  ◌>>=◌, ◌>>◌,
}
use ksync.Kernel.Abi.{invoke, box_free}
use ksync.Kernel.Ledger.{
  one_if, total, boxes, unboxes, opens, closes, takes, gives, live, sound, thread_context_of,
}
use ksync.NtStatus.{NtError}
use ksync.Object.Balance.{NtSuccess, ObLaws}
use ksync.Thread
use ksync.Thread.{JoinHandle, spawn, join, join_open}
use ksync.Thread.Join.{WaitLaws, Joined, join-Joined, Begun, spawn-Begun}

-- The new thread: before the call of the closure, before the drop of its box, or at its end.
pub data Child : Type 0 where
  starting : Child
  freeing : Child
  exited : Child

pub data Owner : Type 0 where
  holding : Owner
  over : Owner

pub record Threads : Type 0 where
  pub child : Child
  pub owner : Owner

abbrev pub has_box : Child → Bool
has_box starting = true
has_box freeing = true
has_box exited = false

-- The wait in `join` goes on until the thread has exited.
unfoldable pub owner_turn :
    (thread_type : ℕ) → JoinHandle → (joins : Bool) → Threads → Owner → M Threads
owner_turn thread_type self true s holding =
    if has_box s.child
    then pure s
    else (do r ← join thread_type self; pure (record s { owner = over }))
owner_turn thread_type self false s holding = do Thread.drop self; pure (record s { owner = over })
owner_turn thread_type self joins s over = pure s

-- `start_routine_stub` in two turns.
unfoldable pub child_turn : (context : ℕ) → Threads → Child → M Threads
child_turn context s starting = do emit (invoke context); pure (record s { child = freeing })
child_turn context s freeing = do emit (box_free context); pure (record s { child = exited })
child_turn context s exited = pure s

module _ (thread_type : ℕ) (self : JoinHandle) (joins : Bool) (context : ℕ) where
  -- The next turn is the new thread's or the owner's.
  unfoldable pub turn : Threads → Bool → M Threads
  unfolding owner_turn child_turn
  turn s true = child_turn context s s.child
  turn s false = owner_turn thread_type self joins s s.owner

  unfoldable pub turns : Threads → List Bool → M Threads
  unfolding turn
  turns s [] = pure s
  turns s (who ∷ order) = do s' ← turn s who; turns s' order

abbrev pub last_turns : List Bool
last_turns = true ∷ true ∷ false ∷ []

-- The two threads, if there are two.
unfoldable pub after_spawn :
    (thread_type : ℕ) → (joins : Bool) → (order : List Bool) → Result JoinHandle NtError → M Threads
after_spawn thread_type joins order (err e) = pure (record { child = exited; owner = over })
after_spawn thread_type joins order (ok self) = λ k l.
    turns thread_type self joins (thread_context_of self.raw l)
      (record { child = starting; owner = holding }) order k l

-- A thread is spawned, and the owner of the handle joins it or not.
unfoldable pub spawned : (thread_type : ℕ) → (joins : Bool) → (order : List Bool) → M Threads
unfolding after_spawn
spawned thread_type joins order = do r ← spawn; after_spawn thread_type joins order r
