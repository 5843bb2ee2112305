-- ===== src/Timer/Delays.antt =====
-- Memory of timer.rs: one-shot delays, and timers.
use ksync.Mutex.Lifecycle.{Balance}
use ksync.NtStatus.{NtError, new as error_new}
use ksync.Timer
use ksync.Base.{refl, ◌∙◌, ◌≢◌, ◌⊎◌, err, ok, Bool, ◌∷◌, Result, ℕ, ◌+◌, ◌≡◌, true, false, arith}
use ksync.Kernel.{Returns-run, ◌>>◌, pure, Kernel, Log, M, Returns, ◌>>=◌}
use ksync.Kernel.Abi.{box_free, invoke, event, box_new}
use ksync.Kernel.Ledger.{total, boxes, unboxes, live, sound}
use ksync.Timer.{
  OneShot, drop, NtError, Timer, new, due_from_millis, period_millis, delay_run,
  oneshot_dpc_routine,
}

-- The allocator hands out no box twice at a time.
abbrev pub Fresh : Kernel → Type 0
Fresh k = (l : Log) → live (k l box_new).ret l ≡ false

-- A one-shot delay: `delay_run`, and then the routine of its DPC.
unfoldable pub delayed : ℕ → M (Unit {0})
delayed after = do s ← delay_run after; oneshot_dpc_routine s

-- The four boxes of a one-shot delay are allocated, and no two are the same.
pub record Four (s : OneShot) (l : Log) : Type 0 where
  pub dpc_live : live s.dpc l ≡ true
  pub callback_live : live s.callback l ≡ true
  pub timer_live : live s.timer l ≡ true
  pub context_live : live s.context l ≡ true
  pub dpc_callback : s.dpc ≢ s.callback
  pub dpc_timer : s.dpc ≢ s.timer
  pub dpc_context : s.dpc ≢ s.context
  pub callback_timer : s.callback ≢ s.timer
  pub callback_context : s.callback ≢ s.context
  pub timer_context : s.timer ≢ s.context

-- A new box is none of the live ones.
new_differs : (k : Kernel) (l : Log) (p : ℕ) → Fresh k → live p l ≡ true → p ≢ (k l box_new).ret
new_differs k l p fresh alive = λ same. ground (arith, fresh l, same)

still_live :
    (k : Kernel) (l : Log) (p : ℕ)
    → live p l ≡ true
    → live p (event box_new (k l box_new) ∷ l) ≡ true
still_live k l p alive = ground (arith, alive)

now_live : (k : Kernel) (l : Log) → live (k l box_new).ret (event box_new (k l box_new) ∷ l) ≡ true
now_live k l = ground arith

-- What `delay_run` leaves.
abbrev Scheduled : Log → OneShot → Log → Type 0
Scheduled l s l' =
    (sound l' ≡ sound l)
    × Four s l'
    × (total boxes l' ≡ total boxes l + 4)
    × (total unboxes l' ≡ total unboxes l)

delay_run-Scheduled :
    (after : ℕ) (k : Kernel) (l : Log) → Fresh k → Returns (delay_run after k l) (Scheduled l)
unfolding delay_run
delay_run-Scheduled after k l fresh =
    let l1 : Log = event box_new (k l box_new) ∷ l in
    let l2 : Log = event box_new (k l1 box_new) ∷ l1 in
    let l3 : Log = event box_new (k l2 box_new) ∷ l2 in
    let dpc : live (k l box_new).ret l1 ≡ true = now_live k l in
    let callback : live (k l1 box_new).ret l2 ≡ true = now_live k l1 in
    let timer : live (k l2 box_new).ret l3 ≡ true = now_live k l2 in
    let dpc2 : live (k l box_new).ret l2 ≡ true = still_live k l1 _ dpc in
    let dpc3 : live (k l box_new).ret l3 ≡ true = still_live k l2 _ dpc2 in
    let callback3 : live (k l1 box_new).ret l3 ≡ true = still_live k l2 _ callback in
    (
      refl,
      record {
        dpc_live = still_live k l3 _ dpc3;
        callback_live = still_live k l3 _ callback3;
        timer_live = still_live k l3 _ timer;
        context_live = now_live k l3;
        dpc_callback = new_differs k l1 _ fresh dpc;
        dpc_timer = new_differs k l2 _ fresh dpc2;
        dpc_context = new_differs k l3 _ fresh dpc3;
        callback_timer = new_differs k l2 _ fresh callback;
        callback_context = new_differs k l3 _ fresh callback3;
        timer_context = new_differs k l3 _ fresh timer;
      },
      omega arith,
      omega arith,
    )

-- What the routine leaves.
abbrev Cleared : Log → Unit {0} → Log → Type 0
Cleared l u l' =
    (sound l' ≡ true) × (total boxes l' ≡ total boxes l) × (total unboxes l' ≡ total unboxes l + 4)

-- A box that is dropped does not take another with it.
drop_other :
    (p q : ℕ) (k : Kernel) (l : Log)
    → q ≢ p
    → live p l ≡ true
    → live p (event (box_free q) (k l (box_free q)) ∷ l) ≡ true
drop_other p q k l ne alive = ground (arith, alive)

routine-clean :
    (s : OneShot) (k : Kernel) (l : Log)
    → sound l ≡ true
    → Four s l
    → Returns (oneshot_dpc_routine s k l) (Cleared l)
unfolding oneshot_dpc_routine
routine-clean s k l fine four =
    let l1 : Log = event (invoke s.callback) (k l (invoke s.callback)) ∷ l in
    let l2 : Log = event (box_free s.dpc) (k l1 (box_free s.dpc)) ∷ l1 in
    let l3 : Log = event (box_free s.callback) (k l2 (box_free s.callback)) ∷ l2 in
    let callback2 : live s.callback l2 ≡ true =
      drop_other s.callback s.dpc k l1 four.dpc_callback four.callback_live in
    let timer3 : live s.timer l3 ≡ true =
      drop_other s.timer s.callback k l2 four.callback_timer
        (drop_other s.timer s.dpc k l1 four.dpc_timer four.timer_live) in
    let context3 : live s.context l3 ≡ true =
      drop_other s.context s.callback k l2 four.callback_context
        (drop_other s.context s.dpc k l1 four.dpc_context four.context_live) in
    let context4 : live s.context (event (box_free s.timer) (k l3 (box_free s.timer)) ∷ l3) ≡ true =
      drop_other s.context s.timer k l3 four.timer_context context3 in
    (
      rw (context4, timer3, callback2, four.dpc_live, four.callback_live, fine) refl,
      omega arith,
      omega arith,
    )

-- With an allocator that hands out no live box, a one-shot delay whose routine has run was sound, and
-- the four boxes that `delay_run` made are dropped.
pub delayed-clean :
    (after : ℕ) (k : Kernel) (l : Log)
    → Fresh k
    → sound l ≡ true
    → Returns (delayed after k l) λ _ l'.
      (sound l' ≡ true)
      × (total boxes l' ≡ total boxes l + 4)
      × (total unboxes l' ≡ total unboxes l + 4)
unfolding delayed
delayed-clean after k l fresh fine =
    let (s, l', e, (same, four, more, kept)) =
      Returns-run {P = Scheduled l} (delay_run after k l) (delay_run-Scheduled after k l fresh) in
    let (u, l'', e', (sound', still, gone)) =
      Returns-run {P = Cleared l'} (oneshot_dpc_routine s k l')
        (routine-clean s k l' (same ∙ fine) four) in
    rw (e, e') (sound', omega arith, omega arith)

-- What `Timer::new` leaves: two blocks, or an error with nothing allocated, or an error with the
-- timer's block allocated and lost.
abbrev pub Built : Log → Result Timer NtError → Log → Type 0
Built l (ok self) l' = Balance 2 0 l l' × (total boxes l' ≡ total boxes l + 1)
Built l (err e) l' = (total boxes l' ≡ total boxes l) × (Balance 0 0 l l' ⊎ Balance 1 0 l l')

-- `Timer::new` returns a timer with two new blocks and a box, or an error with nothing allocated, or an
-- error with one block left allocated.
pub new-Built :
    (size dpc_size : ℕ) (is_synch : Bool) (k : Kernel) (l : Log)
    → Returns (Timer.new size dpc_size is_synch k l) (Built l)
unfolding Timer.new error_new
new-Built size dpc_size is_synch k l = ground arith

-- A timer is made and dropped.
unfoldable pub timer_life : (size dpc_size : ℕ) → (is_synch : Bool) → M Bool
unfolding Timer.new drop
timer_life size dpc_size is_synch = do
  r ← Timer.new size dpc_size is_synch
  elim r [ err e ↦ pure false | ok self ↦ (do drop self; pure true) ]

-- Both blocks are returned and the box of the callback is not, or none was made.
abbrev pub LeavesBox : Bool → Log → Log → Type 0
LeavesBox true l l' =
    Balance 2 2 l l' × (total boxes l' ≡ total boxes l + 1) × (total unboxes l' ≡ total unboxes l)
LeavesBox false l l' = (total boxes l' ≡ total boxes l) × (total unboxes l' ≡ total unboxes l)

-- A timer that is made and dropped returns both of its blocks, but never the box of its callback; when
-- it cannot be made there is no box.
pub timer_life-leak :
    (size dpc_size : ℕ) (is_synch : Bool) (k : Kernel) (l : Log)
    → Returns (timer_life size dpc_size is_synch k l) λ made l'. LeavesBox made l l'
unfolding timer_life error_new
timer_life-leak size dpc_size is_synch k l = ground arith
