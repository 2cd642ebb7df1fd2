-- ===== src/Task/Delegate.antt =====
-- task.go: run beside the goroutine of delegateFn, over the channel between them.
pub mod Exact
pub mod Leak
mod Tests
use go_asynctasklib.Base.{◌∷◌, [], true, false, none, some, ℕ, ◌≡◌, Option, Bool}
use go_asynctasklib.Base.Errors.{Error, task, message, task_fn_not_set}
use go_asynctasklib.Task.{Task, End, run, keep_err, context_done, timed_out, returned}

-- How a call of the task's function ends: it returns, panics with a value, or ends its goroutine by
-- runtime.Goexit.
pub data Call : Type 0 where
  returns : Option Error → Call
  panics : ℕ → Call
  exits : Call

-- The goroutine: before its select, in the function, at a send, with the deferred close behind it.
pub data Routine : Type 0 where
  starting calling closed : Routine
  sending : Option Error → Routine

-- run: at its select, or ended.
pub data Caller : Type 0 where
  waiting : Caller
  ended : End → Caller

-- `ctx` is what ctx.Err() returns, `result` how the function ended.
pub record World : Type 0 where
  pub task : Task
  pub ctx : Option Error
  pub routine : Routine
  pub caller : Caller
  pub result : Option Call

-- The function that New keeps, where `own` is what the one of the definition does.
unfoldable pub call_fn : Option ℕ → Call → Call
call_fn none own = returns (some (task task_fn_not_set))
call_fn (some n) own = own

-- What the goroutine goes on with: the send, or after Goexit, where recover gives nil, the close.
unfoldable pub leave : Call → Routine
leave (returns e) = sending e
leave (panics n) = sending (some (message n))
leave exits = closed

-- The goroutine's select with a default.
unfoldable pub begin : Option Error → Routine
begin none = calling
begin (some e) = sending (some e)

-- run returns, and the error is kept.
unfoldable pub end_run : End → World → World
end_run e w = record w { task = keep_err (run e w.task); caller = ended e }

pub data Step (w : World) : World → Type 0 where
  begins : w.routine ≡ starting → Step w (record w { routine = begin w.ctx })
  fn_ends :
      (own : Call)
      → w.routine ≡ calling
      → Step w (record w {
        routine = leave (call_fn w.task.definition.task_fn own);
        result = some (call_fn w.task.definition.task_fn own);
      })
  -- The channel has no buffer.
  meets :
      (r : Option Error)
      → w.routine ≡ sending r
      → w.caller ≡ waiting
      → Step w (end_run (returned r) (record w { routine = closed }))
  -- A closed channel gives nil.
  reads_closed : w.routine ≡ closed → w.caller ≡ waiting → Step w (end_run (returned none) w)
  -- The parent ends the context, or Cancel does, of the task or of its Run.
  context_ends : (e : Error) → w.ctx ≡ none → Step w (record w { ctx = some e })
  sees_context :
      (e : Error) → w.ctx ≡ some e → w.caller ≡ waiting → Step w (end_run (context_done e) w)
  times_out : w.caller ≡ waiting → Step w (end_run (timed_out w.ctx) w)

pub data Reach (w : World) : World → Type 0 where
  start : Reach w w
  later : {u v : World} → Reach w u → Step u v → Reach w v

abbrev pub new_world : Task → Option Error → World
new_world t ctx = record {
  task = t;
  ctx = ctx;
  routine = starting;
  caller = waiting;
  result = none;
}
