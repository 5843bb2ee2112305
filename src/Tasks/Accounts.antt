-- ===== src/Tasks/Accounts.antt =====
-- Boxes, pool blocks, work items and handles of pending tasks, for timer.rs, workitem.rs, dpc.rs and
-- thread.rs.
pub mod Begin
pub mod Complete
use ksync.Base.{ℕ, ◌+◌, ◌≤◌, ◌≡◌, ◌==◌, true, List, [], ◌∷◌}
use ksync.Kernel.{Log}
use ksync.Kernel.Ledger.{
  total, boxes, unboxes, makes_item_at, frees_item_at, allocates_at, frees_at, live, sound, one_if,
  opens, closes,
}
use ksync.Tasks.{Pending, delayed, hr_delayed, posted, queued, running}

-- How often the box at `b` belongs to a pending task.
abbrev pub box_of : ℕ → Pending → ℕ
box_of b (delayed s) =
    one_if (s.dpc == b) + one_if (s.callback == b) + one_if (s.timer == b) + one_if (s.context == b)
box_of b (hr_delayed timer callback) = one_if (callback == b)
box_of b (posted item callback) = one_if (callback == b)
box_of b (queued block context) = one_if (context == b)
box_of b (running context) = one_if (context == b)

-- Boxes, and whether the work item or the block at `x`, that are returned when the task has run.
abbrev pub boxes_owed : Pending → ℕ
boxes_owed (delayed s) = 4
boxes_owed _ = 1

abbrev pub item_of : ℕ → Pending → ℕ
item_of x (posted item callback) = one_if (item == x)
item_of x _ = 0

abbrev pub block_of : ℕ → Pending → ℕ
block_of x (queued block context) = one_if (block == x)
block_of x _ = 0

abbrev pub sum_of : (Pending → ℕ) → List Pending → ℕ
sum_of f [] = 0
sum_of f (p ∷ ps) = f p + sum_of f ps

-- From the log `l0`, on which nothing was pending, to `l`: no box was misused, every box of a pending
-- task is allocated and belongs to one task only, and what was obtained and not returned is what the
-- pending tasks owe.
pub record Accounts (l0 : Log) (ps : List Pending) (l : Log) : Type 0 where
  pub used_well : sound l ≡ true
  pub owned : (b : ℕ) → sum_of (box_of b) ps ≤ one_if (live b l)
  pub boxed :
      total boxes l + total unboxes l0 ≡ total boxes l0 + total unboxes l + sum_of boxes_owed ps
  pub items :
      (x : ℕ)
      → total (makes_item_at x) l + total (frees_item_at x) l0
        ≡ total (makes_item_at x) l0 + total (frees_item_at x) l + sum_of (item_of x) ps
  pub blocks :
      (x : ℕ)
      → total (allocates_at x) l + total (frees_at x) l0
        ≡ total (allocates_at x) l0 + total (frees_at x) l + sum_of (block_of x) ps
  pub handles :
      (x : ℕ) → total (opens x) l + total (closes x) l0 ≡ total (opens x) l0 + total (closes x) l
