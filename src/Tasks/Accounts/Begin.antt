-- ===== src/Tasks/Accounts/Begin.antt =====
-- Starting a task keeps the accounts: delay_run of timer.rs, post of workitem.rs, run_once of dpc.rs and
-- spawn of thread.rs.
use ksync.Base.{
  ℕ, ◌+◌, ◌≤◌, ◌≡◌, ◌==◌, null, inl, inr, Bool-cases, true, false, List, ◌∷◌, ◌++◌, arith,
}
use ksync.Kernel.{Kernel, Log, Returns}
use ksync.Kernel.Abi.{
  Call, Reply, event, ex_allocate_timer, ps_create_system_thread, box_new, io_allocate_work_item,
  ex_allocate_pool, write_zero,
}
use ksync.Kernel.Ledger.{total, queues, live, is_success, one_if}
use ksync.Utils.{non_paged_pool_nx}
use ksync.NtStatus.{new}
use ksync.Timer.Delays.{Fresh}
use ksync.Timer.HighResolution.{TimerRoom}
use ksync.Timer.{delay_run, hr_delay_run, ex_timer_high_resolution}
use ksync.WorkItem.{post}
use ksync.Thread
use ksync.Thread.{spawn, start_routine_stub}
use ksync.Object.Balance.{NtSuccess}
use ksync.Dpc.{dpc_tag, run_once}
use ksync.Tasks.{Task, delay, hr_delay, work, dpc, Pending, detached, begin}
use ksync.Tasks.Accounts.{Accounts}

module _ (k : Kernel) (fresh : Fresh k) (signs : NtSuccess k) (timers : TimerRoom k)
    (l0 : Log) where
  abbrev with_box : Log → Log
  with_box l = event box_new (k l box_new) ∷ l

  -- A new box belongs to nobody yet.
  new-owned :
      (l : Log) (b : ℕ)
      → one_if ((k l box_new).ret == b) + one_if (live b l) ≤ one_if (live b (with_box l))
  new-owned l b = ground (arith, fresh l)

  pub begin-Accounts :
      (t : Task) (ps : List Pending) (l : Log)
      → Accounts l0 ps l
      → Returns (begin t k l) (λ new. Accounts l0 (new ++ ps))
  unfolding begin delay_run hr_delay_run post run_once spawn Thread.drop new
  begin-Accounts (delay after) ps l a =
      let l1 : Log = with_box l in
      let l2 : Log = with_box l1 in
      let l3 : Log = with_box l2 in
      record {
        used_well = a.used_well;
        owned = λ b.
            omega (arith, a.owned b, new-owned l b, new-owned l1 b, new-owned l2 b, new-owned l3 b);
        boxed = omega (arith, a.boxed);
        items = λ x. ground (arith, a.items x);
        blocks = λ x. ground (arith, a.blocks x);
        handles = λ x. omega (arith, a.handles x);
      }
  begin-Accounts (hr_delay after) ps l a =
      let callback : ℕ = (k l box_new).ret in
      let ask : Call = ex_allocate_timer true callback ex_timer_high_resolution in
      let l1 : Log = with_box l in
      let there : ((k l1 ask).ret == null) ≡ false =
        ground (arith, timers l1 true callback ex_timer_high_resolution) in
      rw there (record {
        used_well = a.used_well;
        owned = λ b. omega (arith, a.owned b, new-owned l b);
        boxed = omega (arith, a.boxed);
        items = λ x. ground (arith, a.items x);
        blocks = λ x. ground (arith, a.blocks x);
        handles = λ x. omega (arith, a.handles x);
      })
  begin-Accounts (work device) ps l a =
      let l1 : Log = with_box l in
      elim (Bool-cases ((k l1 (io_allocate_work_item device)).ret == null)) [
        | inl nothing ↦ rw nothing (record {
          used_well = ground (arith, a.used_well);
          owned = λ b. ground (arith, a.owned b, fresh l);
          boxed = omega (arith, a.boxed);
          items = λ x. ground (arith, a.items x);
          blocks = λ x. ground (arith, a.blocks x);
          handles = λ x. omega (arith, a.handles x);
        })
        | inr there ↦ rw there (record {
          used_well = a.used_well;
          owned = λ b. omega (arith, a.owned b, new-owned l b);
          boxed = omega (arith, a.boxed);
          items = λ x. ground (arith, a.items x);
          blocks = λ x. ground (arith, a.blocks x);
          handles = λ x. omega (arith, a.handles x);
        })
      ]
  begin-Accounts (dpc size) ps l a =
      let p : ℕ = (k l (ex_allocate_pool non_paged_pool_nx size dpc_tag)).ret in
      let l1 : Log =
        event (ex_allocate_pool non_paged_pool_nx size dpc_tag)
          (k l (ex_allocate_pool non_paged_pool_nx size dpc_tag))
        ∷ l in
      let l2 : Log = event (write_zero p size) (k l1 (write_zero p size)) ∷ l1 in
      let none_queued : (0 + total queues l == total queues l) ≡ true = ground arith in
      let one_queued : (1 + (0 + (0 + (0 + (0 + total queues l)))) == total queues l) ≡ false =
        ground arith in
      let itself : (p == p) ≡ true = ground arith in
      elim (Bool-cases ((k l (ex_allocate_pool non_paged_pool_nx size dpc_tag)).ret == null)) [
        | inl nothing ↦
            rw (nothing, nothing, none_queued)
              (record {
                used_well = a.used_well;
                owned = a.owned;
                boxed = omega (arith, a.boxed);
                items = λ x. ground (arith, a.items x);
                blocks = λ x. ground (arith, a.blocks x);
                handles = λ x. ground (arith, a.handles x);
              })
        | inr there ↦
            rw (there, there, one_queued, itself)
              (record {
                used_well = a.used_well;
                owned = λ b. ground (arith, a.owned b, fresh l2);
                boxed = omega (arith, a.boxed);
                items = λ x. ground (arith, a.items x);
                blocks = λ x. ground (arith, a.blocks x);
                handles = λ x. ground (arith, a.handles x);
              })
      ]
  begin-Accounts detached ps l a =
      let l1 : Log = with_box l in
      let r : Reply = k l1 (ps_create_system_thread (k l box_new).ret) in
      let l2 : Log = event (ps_create_system_thread (k l box_new).ret) r ∷ l1 in
      elim (Bool-cases (is_success r.ret)) [
        | inl good ↦
            let itself : (r.out == r.out) ≡ true = ground arith in
            rw (signs l2 r.ret, good, itself)
              (record {
                used_well = a.used_well;
                owned = λ b. omega (arith, a.owned b, new-owned l b);
                boxed = omega (arith, a.boxed);
                items = λ x. ground (arith, a.items x);
                blocks = λ x. ground (arith, a.blocks x);
                handles = λ x. ground (arith, a.handles x);
              })
        | inr bad ↦
            let nonzero : (r.ret == 0) ≡ false = ground arith in
            rw (signs l2 r.ret, bad, nonzero)
              (record {
                used_well = ground (arith, a.used_well);
                owned = λ b. ground (arith, a.owned b, fresh l);
                boxed = omega (arith, a.boxed);
                items = λ x. ground (arith, a.items x);
                blocks = λ x. ground (arith, a.blocks x);
                handles = λ x. ground (arith, a.handles x);
              })
      ]
