-- ===== src/Workerpool/Worker.antt =====
-- pkg/workerpool/worker.go: a worker, from newWorker over join and its loop to leave.
pub mod Reports
mod Actions
pub mod Once
mod Tests
use go_asynctasklib.Base.Errors.{
  Error, Result, ok, err, pool, joined, message, wrapped, invalid_worker, nil_context, nil_job,
  nil_value, worker_already_running, worker_panic, worker_timeout,
}
use go_asynctasklib.Workerpool.Claims.{Claims, subscribe, unsubscribe}
use go_asynctasklib.Base.{
  ℕ, Option, ◌++◌, false, if◌then◌else◌, true, Bool, List, some, ◌∷◌, none, [],
}
use go_asynctasklib.Base.Int.{ℤ, eqb_ℤ, pos}

-- The calls of an observer.
pub data Event (J : Type 0) : Type 0 where
  worker_started worker_stopped subscribed unsubscribed : ℕ → Event J
  job_failed : Error → J → Event J
  job_ok : J → Event J
  subscribe_failed unsubscribe_failed : Error → ℕ → Event J
  leave_timeout : ℕ → ℤ → Event J

-- How a call of the handler ends.
pub data Handled : Type 0 where
  returns : Option Error → Handled
  panics : ℕ → Handled

-- Where runLoop stands: not started, at the outer select, behind a claim that was taken, with a job
-- before `running` is set, in the handler, behind the report, or returned, with `done` closed.
-- A handler that calls runtime.Goexit ends the goroutine: `done` is closed, and nothing else is done.
pub data Loop (J : Type 0) : Type 0 where
  unstarted choosing claiming settling over : Loop J
  fetched busy exited : J → Loop J

-- The observer is the log of its calls; of the handler, whether it is set.
pub record WorkerConfig : Type 0 where
  pub id : ℕ
  pub idle_timeout : ℤ
  pub handler_set : Bool

-- `joined` is whether the functions of the context are set, `canceled` whether it has ended.
pub record Worker (J : Type 0) : Type 0 where
  pub id : ℕ
  pub idle_timeout : ℤ
  pub last_active_at : ℤ
  pub running : Bool
  pub started_notified : Bool
  pub joined : Bool
  pub canceled : Bool
  pub loop : Loop J
  pub events : List (Event J)

-- The recovered panic is an error.
unfoldable pub process_job : Handled → Option Error
process_job (returns e) = e
process_job (panics n) = some (joined (pool worker_panic) (message n))

module _ {J : Type 0} where
  unfoldable pub new_worker : ℤ → Option WorkerConfig → Result (Worker J)
  new_worker now none = err (joined (pool invalid_worker) (message 0))
  new_worker now (some cfg) =
      if cfg.handler_set
      then ok (record {
        id = cfg.id;
        idle_timeout = (if eqb_ℤ cfg.idle_timeout (pos 0) then pos 100000000 else cfg.idle_timeout);
        last_active_at = now;
        running = false;
        started_notified = false;
        joined = false;
        canceled = false;
        loop = unstarted;
        events = [];
      })
      else err (joined (pool invalid_worker) (message 1))

  unfoldable pub notify : Event J → Worker J → Worker J
  notify e w = record w { events = w.events ++ (e ∷ []) }

  -- What join sets behind the subscription, with the start of the loop.
  unfoldable pub start_loop : ℤ → Worker J → Worker J
  start_loop now w = record (notify (subscribed w.id) w) {
    last_active_at = now;
    joined = true;
    canceled = false;
    started_notified = false;
    loop = choosing;
  }

  -- The end of join, with the answer of Subscribe.
  unfoldable pub subscribed_with :
      ℤ → Worker J → Claims × Option Error → Worker J × Option Claims × Option Error
  subscribed_with now w (c, some e) = (notify (subscribe_failed e w.id) w, some c, some e)
  subscribed_with now w (c, none) = (start_loop now w, some c, none)

  -- join by its context, nil as the outer `none`, and its jobs. A loop that goes on from an earlier
  -- join is not part of the state.
  unfoldable pub join :
      Option (Option Error) → ℤ → Option Claims → Worker J → Worker J × Option Claims × Option Error
  join none now jobs w = (w, jobs, some (pool nil_context))
  join (some (some e)) now jobs w = (w, jobs, some e)
  join (some none) now none w = (w, none, some (pool nil_job))
  join (some none) now (some c) w =
      if w.running
      then (w, some c, some (pool worker_already_running))
      else subscribed_with now w (subscribe (some w.id) c)

  -- The parts of runLoop: the end, a claim that was taken, a job from the input, the handler with the
  -- report, and what follows it.
  unfoldable pub end_loop : Worker J → Worker J
  end_loop w = record w { running = false; loop = over }

  unfoldable pub claim_taken : Worker J → Worker J
  claim_taken w =
      if w.started_notified
      then record w { loop = claiming }
      else record (notify (worker_started w.id) w) { started_notified = true; loop = claiming }

  unfoldable pub take_job : J → Worker J → Worker J
  take_job t w = record w { loop = fetched t }

  unfoldable pub start_job : J → Worker J → Worker J
  start_job t w = record w { running = true; loop = busy t }

  unfoldable pub report : J → Option Error → Event J
  report t none = job_ok t
  report t (some e) = job_failed e t

  unfoldable pub finish_job : J → Handled → Worker J → Worker J
  finish_job t h w = record (notify (report t (process_job h)) w) { loop = settling }

  unfoldable pub settle_job : ℤ → Worker J → Worker J
  settle_job now w = record w { running = false; last_active_at = now; loop = choosing }

  unfoldable pub exit_job : J → Worker J → Worker J
  exit_job t w = record w { loop = exited t }

  -- leave up to its select: the jobs without the worker and the cancel, which panics where no
  -- context is set.
  unfoldable pub cancel_joined : Worker J → Option (Worker J)
  cancel_joined w = if w.joined then some (record w { canceled = true }) else none

  unfoldable pub unsubscribed_with :
      Worker J → Claims × Option Error → Option (Worker J × Option Claims × Option Error)
  unsubscribed_with w (c, some e) = some (notify (unsubscribe_failed e w.id) w, some c, some e)
  unsubscribed_with w (c, none) = elim (cancel_joined (notify (unsubscribed w.id) w)) [
    | none ↦ none
    | some v ↦ some (v, some c, none)
  ]

  unfoldable pub begin_leave :
      Option Claims → Worker J → Option (Worker J × Option Claims × Option Error)
  begin_leave none w = some (w, none, some (wrapped (pool nil_value)))
  begin_leave (some c) w = unsubscribed_with w (unsubscribe (some w.id) c)

  -- The select of leave, by whether the loop is over before the timeout, and the deferred event.
  unfoldable pub end_leave : Bool → ℤ → Worker J → Worker J × Option Error
  end_leave true timeout w = (notify (worker_stopped w.id) (record w { joined = false }), none)
  end_leave false timeout w = (
    notify (worker_stopped w.id) (notify (leave_timeout w.id timeout) w),
    some (pool worker_timeout),
  )
