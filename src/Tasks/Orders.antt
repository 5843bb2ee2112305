-- ===== src/Tasks/Orders.antt =====
-- Any order of starting and running the closures that run once, of timer.rs, workitem.rs, dpc.rs and thread.rs.
use ksync.Base.{ℕ, ◌+◌, ◌≡◌, Option, none, some, List}
use ksync.Kernel.{Kernel}
use ksync.Tasks.{Pending}
use ksync.Tasks.Accounts.{sum_of, Accounts}

-- The sum over what is picked and what is left.
Picked : (Pending → ℕ) → ℕ → Option (Pending × List Pending) → Type 0
Picked f n none = Unit
Picked f n (some (p, rest)) = n ≡ f p + sum_of f rest
