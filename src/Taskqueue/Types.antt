-- ===== src/Taskqueue/Types.antt =====
-- The data that the packages' layers exchange: lobby.go, mode.go, backend.go and deadletter.go.
-- A time is the integer of its nanoseconds, a lease token an opaque number.
use go_asynctasklib.Base.{ℕ, Option}
use go_asynctasklib.Base.Int.{ℤ}
use go_asynctasklib.Base.Errors.{Error}

-- The metadata of the interface Task. The queue never calls `Do`.
pub record Task : Type 0 where
  pub id : ℕ
  pub seq : ℕ
  pub priority : ℕ

abbrev pub priority_low : ℕ
priority_low = 0

abbrev pub priority_normal : ℕ
priority_normal = 1

abbrev pub priority_high : ℕ
priority_high = 2

abbrev pub priority_super : ℕ
priority_super = 3

-- The code compares a Mode with ModePriority only, so every other value is `mode_fifo`.
pub data Mode : Type 0 where
  mode_priority mode_fifo : Mode

pub record Lease : Type 0 where
  pub token : ℕ
  pub task : Task
  pub attempt : ℕ
  pub deadline : ℤ

pub record DeadTask : Type 0 where
  pub task : Task
  pub reason : Option Error
  pub attempts : ℕ
  pub dead_at : ℤ
