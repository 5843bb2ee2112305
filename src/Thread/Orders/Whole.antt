-- ===== src/Thread/Orders/Whole.antt =====
-- A spawned thread and the owner of its handle, from `spawn` to the end.
use ksync.Base.{ℕ, ◌+◌, ◌≡◌, Bool, true, List, ◌++◌, Result, ok, err, arith}
use ksync.Kernel.{Run, done, panicked, fault, Kernel, Log, Returns, Returns-and, and_then-Returns}
use ksync.Kernel.Ledger.{
  total, boxes, unboxes, opens, closes, takes, gives, sound, thread_context_of,
}
use ksync.NtStatus.{NtError}
use ksync.Object.Balance.{NtSuccess, ObLaws}
use ksync.Thread.{JoinHandle, spawn}
use ksync.Thread.Join.{WaitLaws, Begun, spawn-Begun}
use ksync.Thread.Orders.{
  starting, exited, holding, over, Threads, turns, last_turns, after_spawn, spawned,
}
use ksync.Thread.Orders.Settles.{Inv, turns-Inv, turns-Ended}

-- What is left when both threads are at their end.
abbrev pub Settled : (x : ℕ) → Log → Threads → Log → Type 0
Settled x l s l' =
    (s.child ≡ exited)
    × (s.owner ≡ over)
    × (sound l' ≡ true)
    × (total boxes l' ≡ total boxes l + 1)
    × (total unboxes l' ≡ total unboxes l + 1)
    × (total (opens x) l' + total (closes x) l ≡ total (opens x) l + total (closes x) l')
    × (total (takes x) l' + total (gives x) l ≡ total (takes x) l + total (gives x) l')

module _ (thread_type x : ℕ) (joins : Bool) (order : List Bool) (k : Kernel) (l : Log)
    (laws : ObLaws k) (waits : WaitLaws k) where
  abbrev first_threads : Threads
  first_threads = record { child = starting; owner = holding }

  run-Settled :
      (self : JoinHandle) (l0 : Log) (context : ℕ) (r : Run Threads)
      → Begun x l (ok self) l0
      → Returns r (λ s l'. Inv context self.raw x l0 s l' × ((s.child ≡ exited) × (s.owner ≡ over)))
      → Returns r (Settled x l)
  run-Settled self l0 context (done s l') begun h = ground arith
  run-Settled self l0 context (panicked l') begun h = h
  run-Settled self l0 context (fault l') begun h = h

  after_spawn-Settled :
      (r : Result JoinHandle NtError) (l0 : Log)
      → Begun x l r l0
      → Returns (after_spawn thread_type joins (order ++ last_turns) r k l0) (Settled x l)
  unfolding after_spawn
  after_spawn-Settled (err e) l0 begun = ground arith
  after_spawn-Settled (ok self) l0 begun =
      let context = thread_context_of self.raw l0 in
      let ready : Inv context self.raw x l0 first_threads l0 = ground (arith, begun) in
      run-Settled self l0 context
        (turns thread_type self joins context first_threads (order ++ last_turns) k l0) begun
        (Returns-and (Inv context self.raw x l0) (λ s l'. (s.child ≡ exited) × (s.owner ≡ over))
          (turns thread_type self joins context first_threads (order ++ last_turns) k l0)
          (turns-Inv thread_type self joins context x l0 k laws waits first_threads
            (order ++ last_turns) l0 ready)
          (turns-Ended thread_type self joins context x l0 k laws waits first_threads order l0
            ready))

-- From a sound state, where `nt_success` tells by the sign bit, referencing succeeds with STATUS_SUCCESS
-- only, and an unlimited wait succeeds: for every order of turns of a spawned thread and of the owner of
-- its handle, who joins it or only drops the handle, with two more turns of the thread and one of the
-- owner, both reach their end, the closure was used soundly and its box is dropped, the one handle that
-- was opened is closed, and every reference is given back; so too when the thread cannot be created.
pub spawned-Settled :
    (thread_type x : ℕ) (joins : Bool) (order : List Bool) (k : Kernel) (l : Log)
    → NtSuccess k
    → ObLaws k
    → WaitLaws k
    → sound l ≡ true
    → Returns (spawned thread_type joins (order ++ last_turns) k l) (Settled x l)
unfolding spawned
spawned-Settled thread_type x joins order k l signs laws waits fine =
    and_then-Returns {P = Begun x l} (Settled x l) (spawn k l)
      (after_spawn thread_type joins (order ++ last_turns)) k (spawn-Begun x k l signs fine)
      (after_spawn-Settled thread_type x joins order k l laws waits)
