-- ===== src/Task.antt =====
-- pkg/task: the definition of a task and its builder, the state machine, Go and GoRetry.
pub mod Build
pub mod Delegate
pub mod Hooks
pub mod Outcomes
pub mod Retries
mod Tests
use go_asynctasklib.Base.{
  ℕ, zero, suc, ◌+◌, ◌%◌, ◌<◌, ◌≡◌, Bool, true, false, ◌||◌, Option, none, some, List, [], ◌∷◌, leb,
  if◌then◌else◌,
}
use go_asynctasklib.Base.Int.{ℤ, pos, ltb_ℤ, leb_ℤ}
use go_asynctasklib.Base.Errors.{
  Error, task, join, is_canceled, joined, nil_ctx, max_retries_exceeded, max_retries_not_set,
  cancelled_task, task_in_progress, task_timeout,
}

-- A name is a text, by a number, or the text that Build makes of the ID.
pub data Name : Type 0 where
  no_name : Name
  text numbered : ℕ → Name

-- TaskFn and Hooks stand by a number, since what the function does is what a run observes; the retry
-- strategy is its method Delay.
pub record Definition : Type 0 where
  pub id : ℕ
  pub name : Name
  pub task_fn : Option ℕ
  pub hooks : Option ℕ
  pub delay : ℤ
  pub max_duration : ℤ
  pub retry_delay : ℤ
  pub max_retries : ℤ
  pub retry_strategy : Option (ℕ → ℤ)

pub data State : Type 0 where
  created pending started done failed canceled : State

pub record Task : Type 0 where
  pub definition : Definition
  pub timeout : ℤ
  pub state : State
  -- The states that the hooks were told, the last one first.
  pub told : List State
  pub attempts : ℕ
  pub last_err : Option Error

-- The state is stored, then the hook is called.
unfoldable pub enter : State → Task → Task
enter s t = record t { state = s; told = s ∷ t.told }

unfoldable pub new : Definition → Task
new d = enter created (record {
  definition = d;
  timeout = (if ltb_ℤ (pos 0) d.max_duration then d.max_duration else pos 30000000000);
  state = created;
  told = [];
  attempts = 0;
  last_err = none;
})

unfoldable pub is_failed : State → Bool
is_failed failed = true
is_failed _ = false

unfoldable pub is_in_progress : State → Bool
is_in_progress pending = true
is_in_progress started = true
is_in_progress _ = false

unfoldable pub is_end : State → Bool
is_end done = true
is_end failed = true
is_end canceled = true
is_end _ = false

-- What ends a run: the context with its error, the timeout with the context's error at that time, or
-- the function with what it returns; a panic is an error that it returns.
pub data End : Type 0 where
  context_done : Error → End
  timed_out : Option Error → End
  returned : Option Error → End

unfoldable pub run : End → Task → Task × Option Error
run (context_done e) t = (enter canceled t, some (joined (task cancelled_task) e))
run (timed_out (some e)) t = (enter canceled t, some (joined (task cancelled_task) e))
run (timed_out none) t = (enter failed t, join (some (task task_timeout)) t.last_err)
run (returned none) t = (enter done t, none)
run (returned (some e)) t =
    if is_canceled e
    then (enter canceled t, some (joined (task cancelled_task) e))
    else (enter failed t, some e)

-- `t.err` is set only by a run that returns an error.
unfoldable pub keep_err : Task × Option Error → Task
keep_err (t, none) = t
keep_err (t, some e) = record t { last_err = some e }

-- The two goroutines of Go: the caller's `t.started()` comes before the end of the run, or after it.
pub data Order : Type 0 where
  started_first run_first : Order

-- One call of Go as it happens: a nil context, the context's error if it ends the delay, and the
-- run with the order of the two goroutines.
pub record Call : Type 0 where
  pub nil_ctx : Bool
  pub ctx_done : Option Error
  pub end : End
  pub order : Order

-- The state once the run has ended, which is where Await returns.
unfoldable pub spawn : Order → End → Task → Task
spawn started_first e t = keep_err (run e (enter started t))
spawn run_first e t = enter started (keep_err (run e t))

unfoldable pub go : Call → Task → Task × Option Error
go c t =
    if c.nil_ctx
    then (t, some (task nil_ctx))
    else (if is_in_progress t.state then (t, some (task task_in_progress)) else (elim c.ctx_done [
      | some e ↦ (enter canceled (enter pending t), some (joined (task cancelled_task) e))
      | none ↦ (spawn c.order c.end (enter pending t), none)
    ]))

unfoldable pub retry_pause : Task → ℤ
retry_pause t = elim t.definition.retry_strategy [
  | none ↦ t.definition.retry_delay
  | some delay ↦ delay t.attempts
]

-- One attempt of GoRetry: its call of Go, and the context's error if it ends the pause.
pub record Attempt : Type 0 where
  pub call : Call
  pub pause_done : Option Error

-- What an attempt leads to: a result, or another attempt with the cause so far.
pub data Next : Type 0 where
  returns : Task → Option Error → Next
  again : Task → Option Error → Next

-- The attempts are a uint32.
unfoldable pub count : Task → Task
count t = record t { attempts = (t.attempts + 1) % 4294967296 }

unfoldable pub pause : Option Error → ℤ → Task → Next
pause none d t = again t t.last_err
pause (some e) d t =
    if ltb_ℤ (pos 0) d
    then returns (enter canceled t) (some (joined (task cancelled_task) e))
    else again t t.last_err

unfoldable pub after_go : Option Error → Task × Option Error → Next
after_go done_ctx (t, some e) = returns t (some e)
after_go done_ctx (t, none) =
    if is_failed t.state then pause done_ctx (retry_pause t) (count t) else returns t none

-- The loop, on fuel; `none` if that runs out. The k-th entry is the k-th attempt.
unfoldable pub attempt_loop : ℕ → (ℕ → Attempt) → Task → Option Error → Option (Task × Option Error)
attempt_loop zero attempts t cause = none
attempt_loop (suc n) attempts t cause =
    if leb_ℤ t.definition.max_retries (pos t.attempts)
    then some (t, join (some (task max_retries_exceeded)) cause)
    else (elim (after_go (attempts t.attempts).pause_done (go (attempts t.attempts).call t)) [
      | returns u r ↦ some (u, r)
      | again u r ↦ attempt_loop n attempts u r
    ])

unfoldable pub go_retry : ℕ → (ℕ → Attempt) → Task → Option (Task × Option Error)
go_retry fuel attempts t =
    if leb_ℤ t.definition.max_retries (pos 0)
    then some (record t { state = failed }, some (task max_retries_not_set))
    else attempt_loop fuel attempts t none
