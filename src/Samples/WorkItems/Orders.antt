-- ===== src/Samples/WorkItems/Orders.antt =====
-- `test_workitem` of test.rs, in every order of the turns of its two threads.
use ksync.Base.{
  ◌++◌, ◌<◌, ℕ, zero, suc, ◌≡◌, ◌≢◌, ◌≤◌, ◌+◌, ◌-◌, ◌==◌, null, Bool, true, false, not, ◌&&◌, ◌||◌,
  if◌then◌else◌, List, [], ◌∷◌, Bool-cases, inl, inr, arith,
}
use ksync.Kernel.{
  fault, panicked, done, and_then, Run, Returns-and, Kernel, Log, Returns, and_then-Returns,
}
use ksync.Kernel.Abi.{Call, box_free, ex_free_pool, box_new, event, io_allocate_work_item}
use ksync.Kernel.Ledger.{one_if, total, frees, frees_at, allocates_at, live, signaled, sound}
use ksync.NtStatus.{new as error_new}
use ksync.Object.Wait.{wait}
use ksync.Sync.{event_set, event_drop, event_tag}
use ksync.Timer.Delays.{Fresh}
use ksync.WorkItem
use ksync.Samples.WorkItems.{
  at_first, Main, dropping, waiting, posting, left, Worker, calling, setting, freeing, over, Shared,
  Threads, release, main_turn, worker_turn, turn, turns,
}

-- The work item, and with it the closure, is not dropped yet.
unfoldable pub has_item : Main → Bool
has_item dropping = true
has_item waiting = false
has_item (posting n) = false
has_item left = false

-- The wait is over.
unfoldable pub has_waited : Main → Bool
has_waited dropping = false
has_waited waiting = false
has_waited (posting n) = true
has_waited left = true

unfoldable pub has_left : Main → Bool
has_left dropping = false
has_left waiting = false
has_left (posting n) = false
has_left left = true

unfoldable pub to_post : Main → ℕ
to_post dropping = 0
to_post waiting = 0
to_post (posting n) = n
to_post left = 0

-- The closure has set the event.
unfoldable pub is_called : Worker → Bool
is_called calling = false
is_called setting = false
is_called freeing = true
is_called over = true

unfoldable pub has_context : Worker → Bool
has_context calling = true
has_context setting = true
has_context freeing = true
has_context over = false

-- The block at `x` was returned as often as it was obtained, unless it is the event's and that is still
-- in use; `m` and `a` say how often it had been returned and obtained before the test.
abbrev pub Kept : Shared → (x m a : ℕ) → Bool → Log → Type 0
Kept e x m a in_use l =
    total (frees_at x) l + a + one_if (in_use && e.event.raw == x) ≡ m + total (allocates_at x) l

-- What holds after the first two turns; `early` says that both were the system thread's, so that the
-- closure has run. `n` blocks had been returned to the pool before.
abbrev Inv : Shared → (early : Bool) → (n x m a : ℕ) → Threads → Log → Type 0
Inv e early n x m a s l =
    (s.arcs ≡ one_if (has_item s.main) + one_if (not (has_left s.main)))
    × ((if has_waited s.main then is_called s.worker else signaled e.event.raw l)
        ≡ is_called s.worker)
    × ((has_waited s.main && not (is_called s.worker)) ≡ false)
    × ((early || not (has_item s.main)) ≡ true)
    × ((early && not (is_called s.worker)) ≡ false)
    × ((has_context s.worker && not (live e.context l)) ≡ false)
    × ((has_item s.main && not (live e.item.callback l)) ≡ false)
    × ((not (has_item s.main) && not (is_called s.worker) && live e.item.callback l) ≡ false)
    × ((if is_called s.worker then sound l else early) ≡ early)
    × (to_post s.main ≤ 10)
    × (total frees l ≡ n + one_if (has_left s.main))
    × Kept e x m a (not (has_left s.main)) l

abbrev threads : (arcs : ℕ) → Main → Worker → Threads
threads arcs main worker = record { arcs = arcs; main = main; worker = worker }

module _ (e : Shared) (apart : e.item.callback ≢ e.context) (k : Kernel) (fresh : Fresh k)
    (early : Bool) (n x m a : ℕ) where
  posting-Inv :
      (arcs to_go : ℕ) (worker : Worker) (l : Log)
      → Inv e early n x m a (threads arcs (posting (suc to_go)) worker) l
      → Returns
          (main_turn e (threads arcs (posting (suc to_go)) worker) (posting (suc to_go)) k l)
          (Inv e early n x m a)
  unfolding main_turn WorkItem.post error_new has_item has_waited has_left to_post is_called
      has_context
  posting-Inv arcs to_go worker l h =
      let l1 : Log = event box_new (k l box_new) ∷ l in
      elim (Bool-cases ((k l1 (io_allocate_work_item e.device)).ret == null)) [
        | inl nothing ↦ rw nothing (ground (arith, fresh l, h))
        | inr there ↦ rw there (ground (arith, fresh l, h))
      ]

  main_turn-Inv :
      (arcs : ℕ) (main : Main) (worker : Worker) (l : Log)
      → Inv e early n x m a (threads arcs main worker) l
      → Returns (main_turn e (threads arcs main worker) main k l) (Inv e early n x m a)
  unfolding main_turn release event_drop wait WorkItem.drop has_item has_waited has_left to_post
      is_called has_context
  main_turn-Inv arcs dropping worker l h = ground arith
  main_turn-Inv arcs waiting worker l h = ground arith
  main_turn-Inv arcs (posting (suc to_go)) worker l h = posting-Inv arcs to_go worker l h
  main_turn-Inv arcs (posting zero) worker l h = ground arith
  main_turn-Inv arcs left worker l h = h

  worker_turn-Inv :
      (arcs : ℕ) (main : Main) (worker : Worker) (l : Log)
      → Inv e early n x m a (threads arcs main worker) l
      → Returns (worker_turn e (threads arcs main worker) worker k l) (Inv e early n x m a)
  unfolding worker_turn event_set has_item has_waited has_left to_post is_called has_context
  worker_turn-Inv arcs main calling l h = ground arith
  worker_turn-Inv arcs main setting l h = ground arith
  worker_turn-Inv arcs main freeing l h = ground arith
  worker_turn-Inv arcs main over l h = h

  turn-Inv :
      (s : Threads) (who : Bool) (l : Log)
      → Inv e early n x m a s l
      → Returns (turn e s who k l) (Inv e early n x m a)
  unfolding turn
  turn-Inv s true l h = worker_turn-Inv s.arcs s.main s.worker l h
  turn-Inv s false l h = main_turn-Inv s.arcs s.main s.worker l h

  turns-Inv :
      (s : Threads) (order : List Bool) (l : Log)
      → Inv e early n x m a s l
      → Returns (turns e s order k l) (Inv e early n x m a)
  unfolding turns
  turns-Inv s [] l h = h
  turns-Inv s (who ∷ order) l h =
      and_then-Returns {P = Inv e early n x m a} (Inv e early n x m a) (turn e s who k l)
        (λ s'. turns e s' order) k (turn-Inv s who l h) (λ s' l1 h'. turns-Inv s' order l1 h')

-- Three turns of the system thread and thirteen of the main thread.
abbrev pub main_turns : ℕ → List Bool
main_turns zero = []
main_turns (suc j) = false ∷ main_turns j

abbrev pub last_turns : List Bool
last_turns = true ∷ true ∷ true ∷ main_turns 13

-- Both threads are at the end.
abbrev Ended : Threads → Log → Type 0
Ended s l = (s.main ≡ left) × (s.worker ≡ over)

module _ (e : Shared) (k : Kernel) (arcs : ℕ) where
  left-Ended :
      (j : ℕ) (l : Log) → Returns (turns e (threads arcs left over) (main_turns j) k l) Ended
  unfolding turns turn main_turn
  left-Ended zero l = ground arith
  left-Ended (suc j) l = left-Ended j l

module _ (e : Shared) (k : Kernel) where
  posting-Ended :
      (to_go j arcs : ℕ) (l : Log)
      → to_go < j
      → Returns (turns e (threads arcs (posting to_go) over) (main_turns j) k l) Ended
  unfolding turns turn main_turn release event_drop WorkItem.post error_new
  posting-Ended to_go zero arcs l below = absurd (omega arith)
  posting-Ended zero (suc j) arcs l below = elim (Bool-cases (arcs == 1)) [
    | inl last ↦ rw last (left-Ended e k _ j _)
    | inr other ↦ rw other (left-Ended e k _ j _)
  ]
  posting-Ended (suc to_go) (suc j) arcs l below =
      let l1 : Log = event box_new (k l box_new) ∷ l in
      elim (Bool-cases ((k l1 (io_allocate_work_item e.device)).ret == null)) [
        | inl nothing ↦ rw nothing (posting-Ended to_go j arcs _ (omega arith))
        | inr there ↦ rw there (posting-Ended to_go j arcs _ (omega arith))
      ]

  waiting-Ended :
      (j arcs : ℕ) (l : Log)
      → 10 < j
      → signaled e.event.raw l ≡ true
      → Returns (turns e (threads arcs waiting over) (main_turns (suc j)) k l) Ended
  unfolding turns turn main_turn wait
  waiting-Ended j arcs l enough ready = rw ready (posting-Ended 10 j arcs _ enough)

  main_turns-Ended :
      (arcs : ℕ) (main : Main) (l : Log)
      → to_post main ≤ 10
      → (has_waited main || signaled e.event.raw l) ≡ true
      → Returns (turns e (threads arcs main over) (main_turns 13) k l) Ended
  unfolding turns turn main_turn release event_drop WorkItem.drop to_post has_waited
  main_turns-Ended arcs dropping l few ready =
      let give : Call = box_free e.item.callback in
      let l1 : Log = event give (k l give) ∷ l in
      let return : Call = ex_free_pool e.event.raw event_tag in
      let l2 : Log = event return (k l1 return) ∷ l1 in
      elim (Bool-cases (arcs == 1)) [
        | inl last ↦ rw last (waiting-Ended 11 (arcs - 1) l2 (omega arith) ready)
        | inr other ↦ rw other (waiting-Ended 11 (arcs - 1) l1 (omega arith) ready)
      ]
  main_turns-Ended arcs waiting l few ready = waiting-Ended 12 arcs l (omega arith) ready
  main_turns-Ended arcs (posting to_go) l few ready = posting-Ended to_go 13 arcs l (omega arith)
  main_turns-Ended arcs left l few ready = left-Ended e k arcs 13 l

  last_turns-Ended :
      (arcs : ℕ) (main : Main) (worker : Worker) (l : Log)
      → (if has_waited main then is_called worker else signaled e.event.raw l) ≡ is_called worker
      → to_post main ≤ 10
      → Returns (turns e (threads arcs main worker) last_turns k l) Ended
  unfolding turns turn worker_turn event_set is_called
  last_turns-Ended arcs main calling l h few = main_turns-Ended arcs main _ few (ground arith)
  last_turns-Ended arcs main setting l h few = main_turns-Ended arcs main _ few (ground arith)
  last_turns-Ended arcs main freeing l h few = main_turns-Ended arcs main _ few (ground arith)
  last_turns-Ended arcs main over l h few = main_turns-Ended arcs main l few (ground arith)

-- The two threads begin with the event, the work item and the context that the latter made.
pub record Begun (e : Shared) (n x m a : ℕ) (l : Log) : Type 0 where
  pub apart : e.item.callback ≢ e.context
  pub context : live e.context l ≡ true
  pub callback : live e.item.callback l ≡ true
  pub fine : sound l ≡ true
  pub unset : signaled e.event.raw l ≡ false
  pub freed : total frees l ≡ n
  pub kept : Kept e x m a true l

first_turns-Inv :
    (e : Shared) (k : Kernel) (n x m a : ℕ) (first second : Bool) (l : Log)
    → Begun e n x m a l
    → Returns (turns e at_first (first ∷ second ∷ []) k l) (Inv e (first && second) n x m a)
unfolding turns turn main_turn worker_turn event_set release event_drop wait WorkItem.drop has_item
    has_waited has_left to_post is_called has_context
first_turns-Inv e k n x m a true true l begun = ground (arith, begun.apart)
first_turns-Inv e k n x m a true false l begun = ground (arith, begun.apart)
first_turns-Inv e k n x m a false true l begun = ground (arith, begun.apart)
first_turns-Inv e k n x m a false false l begun = ground (arith, begun.apart)

-- What some turns establish, and others make of it.
turns-split :
    (e : Shared) (k : Kernel) (P Q : Threads → Log → Type 0) (some_turns rest : List Bool)
    (s : Threads) (l : Log)
    → Returns (turns e s some_turns k l) P
    → ((s' : Threads) (l' : Log) → P s' l' → Returns (turns e s' rest k l') Q)
    → Returns (turns e s (some_turns ++ rest) k l) Q
unfolding turns
turns-split e k P Q [] rest s l now next = next s l now
turns-split e k P Q (who ∷ some_turns) rest s l now next =
    after (turn e s who k l) now (λ s' l' h. turns-split e k P Q some_turns rest s' l' h next)
  where
    after :
        (r : Run Threads)
        → Returns (and_then r (λ s'. turns e s' some_turns) k) P
        → ((s' : Threads) (l' : Log)
            → Returns (turns e s' some_turns k l') P
            → Returns (turns e s' (some_turns ++ rest) k l') Q)
        → Returns (and_then r (λ s'. turns e s' (some_turns ++ rest)) k) Q
    after (done s' l') h each = each s' l' h
    after (panicked l') h each = h
    after (fault l') h each = h

module _ (e : Shared) (k : Kernel) (fresh : Fresh k) (n x m a : ℕ) where
  -- What the two threads leave when both are at the end.
  abbrev pub Leaves : (early : Bool) → Threads → Log → Type 0
  Leaves early s l =
      (s.main ≡ left)
      × (s.worker ≡ over)
      × (sound l ≡ early)
      × (total frees l ≡ n + 1)
      × (total (frees_at x) l + a ≡ m + total (allocates_at x) l)

  Inv-Leaves :
      (early : Bool) (s : Threads) (l : Log)
      → Inv e early n x m a s l
      → s.main ≡ left
      → s.worker ≡ over
      → Leaves early s l
  unfolding is_called has_left
  Inv-Leaves early s l h at_left at_over = ground arith

  Ended-Leaves :
      (early : Bool) (r : Run Threads)
      → Returns r (λ s l. Inv e early n x m a s l × Ended s l)
      → Returns r (Leaves early)
  Ended-Leaves early (done s l) (inv, (at_left, at_over)) = Inv-Leaves early s l inv at_left at_over
  Ended-Leaves early (panicked l) h = h
  Ended-Leaves early (fault l) h = h

  last_turns-Leaves :
      (early : Bool) (s : Threads) (l : Log)
      → e.item.callback ≢ e.context
      → Inv e early n x m a s l
      → Returns (turns e s last_turns k l) (Leaves early)
  last_turns-Leaves early s l apart inv = Ended-Leaves early (turns e s last_turns k l) (
      Returns-and (Inv e early n x m a) Ended (turns e s last_turns k l)
        (turns-Inv e apart k fresh early n x m a s last_turns l inv)
        (last_turns-Ended e k s.arcs s.main s.worker l (ground arith) (ground arith)))

  pub turns-Leaves :
      (first second : Bool) (order : List Bool) (l : Log)
      → Begun e n x m a l
      → Returns
          (turns e at_first (first ∷ second ∷ order ++ last_turns) k l)
          (Leaves (first && second))
  turns-Leaves first second order l begun =
      let early : Bool = first && second in
      turns-split e k (Inv e early n x m a) (Leaves early) (first ∷ second ∷ [])
        (order ++ last_turns) at_first l (first_turns-Inv e k n x m a first second l begun)
        (λ s l1 inv.
          turns-split e k (Inv e early n x m a) (Leaves early) order last_turns s l1
            (turns-Inv e begun.apart k fresh early n x m a s order l1 inv)
            (λ s' l2 inv'. last_turns-Leaves early s' l2 begun.apart inv'))
