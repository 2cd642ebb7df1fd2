-- ===== src/Base/Errors.antt =====
-- The errors of the packages as values. `error` is `Option Error`, with `none` for nil.
use Prim.Native.Nat.{ℕ}
use mathlib.Core.Bool.{Bool, true, false, ◌||◌}
use mathlib.Core.Option.{Option, none, some}

-- pkg/task/errors.go
pub data TaskError : Type 0 where
  cancelled_task task_timeout nil_ctx task_in_progress task_fn_not_set : TaskError
  max_retries_not_set id_not_set max_retries_exceeded : TaskError

-- pkg/taskqueue/errors.go
pub data QueueError : Type 0 where
  lobby_full lobby_empty lobby_closed task_nil queue_empty queue_closed : QueueError
  lease_not_found claim_settled invalid_queue lease_expired : QueueError

-- pkg/workerpool/claims.go, worker.go, errors.go and pool.go
pub data PoolError : Type 0 where
  max_pool_size dispatcher_closed no_workers submit_timeout : PoolError
  worker_timeout worker_panic invalid_worker worker_already_running : PoolError
  nil_value nil_job nil_context pool_shutdown invalid_pool : PoolError

-- pkg/taskgroup/errors.go
pub data GroupError : Type 0 where
  task_group_stopped task_group_max_workers : GroupError

-- pkg/yielder/errors.go
pub data YieldError : Type 0 where
  nil_generator stopped input_closed : YieldError

-- `canceled` and `deadline_exceeded` are the context package's; `user n` is an error of the
-- caller's code, `message n` one made on the spot by `errors.New` or `fmt.Errorf`. `joined` is
-- `errors.Join` of two errors, and `wrapped` an error made by `%w`.
pub data Error : Type 0 where
  canceled deadline_exceeded : Error
  task : TaskError → Error
  queue : QueueError → Error
  pool : PoolError → Error
  group : GroupError → Error
  yield_error : YieldError → Error
  user message : ℕ → Error
  joined : Error → Error → Error
  wrapped : Error → Error

-- `errors.Join`, which drops nil.
abbrev pub join : Option Error → Option Error → Option Error
join none e = e
join (some a) none = some a
join (some a) (some b) = some (joined a b)

-- `errors.Is(err, context.Canceled)` walks the tree of joined and wrapped errors.
unfoldable pub is_canceled : Error → Bool
is_canceled canceled = true
is_canceled (joined a b) = is_canceled a || is_canceled b
is_canceled (wrapped a) = is_canceled a
is_canceled _ = false

-- A value with an error, as Go functions return them.
pub data Result {ℓ} (A : Type ℓ) : Type ℓ where
  ok : A → Result A
  err : Error → Result A
