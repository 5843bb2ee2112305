-- ===== src/Tasks/Accounts/Complete.antt =====
-- Running the routine of a pending task keeps the accounts: timer.rs, workitem.rs, dpc.rs, thread.rs.
use ksync.Base.{List, ◌∷◌, arith}
use ksync.Kernel.{Kernel, Log, Returns}
use ksync.Timer.Delays.{Fresh}
use ksync.Timer.{oneshot_dpc_routine, hr_timer_routine_once_stub}
use ksync.WorkItem.{worker_routine_oneshot_stub}
use ksync.Thread.{start_routine_stub}
use ksync.Object.Balance.{NtSuccess}
use ksync.Dpc.{deferred_routine_once_stub}
use ksync.Tasks.{Pending, delayed, hr_delayed, posted, queued, running, complete}
use ksync.Tasks.Accounts.{Accounts}

module _ (k : Kernel) (fresh : Fresh k) (signs : NtSuccess k) (l0 : Log) where
  pub complete-Accounts :
      (p : Pending) (rest : List Pending) (l : Log)
      → Accounts l0 (p ∷ rest) l
      → Returns (complete p k l) (λ _. Accounts l0 rest)
  unfolding complete oneshot_dpc_routine hr_timer_routine_once_stub worker_routine_oneshot_stub
      deferred_routine_once_stub start_routine_stub
  complete-Accounts (delayed s) rest l a = record {
    used_well =
        ground (
          arith,
          a.used_well,
          a.owned s.dpc,
          a.owned s.callback,
          a.owned s.timer,
          a.owned s.context,
        );
    owned = λ b. ground (arith, a.owned b);
    boxed = omega (arith, a.boxed);
    items = λ x. ground (arith, a.items x);
    blocks = λ x. ground (arith, a.blocks x);
    handles = λ x. omega (arith, a.handles x);
  }
  complete-Accounts (hr_delayed timer callback) rest l a = record {
    used_well = ground (arith, a.owned callback, a.used_well);
    owned = λ b. ground (arith, a.owned b);
    boxed = omega (arith, a.boxed);
    items = λ x. ground (arith, a.items x);
    blocks = λ x. ground (arith, a.blocks x);
    handles = λ x. omega (arith, a.handles x);
  }
  complete-Accounts (posted item callback) rest l a = record {
    used_well = ground (arith, a.owned callback, a.used_well);
    owned = λ b. ground (arith, a.owned b);
    boxed = omega (arith, a.boxed);
    items = λ x. ground (arith, a.items x);
    blocks = λ x. ground (arith, a.blocks x);
    handles = λ x. omega (arith, a.handles x);
  }
  complete-Accounts (queued block context) rest l a = record {
    used_well = ground (arith, a.owned context, a.used_well);
    owned = λ b. ground (arith, a.owned b);
    boxed = omega (arith, a.boxed);
    items = λ x. ground (arith, a.items x);
    blocks = λ x. ground (arith, a.blocks x);
    handles = λ x. omega (arith, a.handles x);
  }
  complete-Accounts (running context) rest l a = record {
    used_well = ground (arith, a.owned context, a.used_well);
    owned = λ b. ground (arith, a.owned b);
    boxed = omega (arith, a.boxed);
    items = λ x. ground (arith, a.items x);
    blocks = λ x. ground (arith, a.blocks x);
    handles = λ x. omega (arith, a.handles x);
  }
