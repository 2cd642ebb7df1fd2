-- ===== src/Workerpool/Pool/Tests.antt =====
-- A pool of jobs that are numbers.
use go_asynctasklib.Workerpool.Pool.{
  enter, place, limited, submit, reject_calls, close_shutdown, dispatch_errors, proceeds,
}
use go_asynctasklib.Workerpool.Claims as Claims
use go_asynctasklib.Workerpool.Claims.{Round, Outcome, failed, time_over}
use go_asynctasklib.Workerpool.Pool.Dispatch.{
  World, Reach, new_world, drained_out, takes, hands, ends_drained, dispatches, enters, places,
  rejects_calls, closes_shutdown, start, later, over,
}
use go_asynctasklib.Workerpool.Pool.Shutdown.{IsLossless, pool-IsLossless}
use go_asynctasklib.Workerpool.Pool.Drain.{Drains, dispatcher-Drains}
use go_asynctasklib.Base.Int.{pos}
use go_asynctasklib.Base.Errors.{pool, no_workers}
use go_asynctasklib.Base.{◌∷◌, ℕ, arith, true, [], none, false, ◌≡◌, refl, some}

abbrev dispatcher : Claims.Claims
dispatcher = record {
  cfg = record {
    size = pos 2;
    submit_backoff = pos 50000000;
    submit_timeout = pos 1000000000;
    submit_attempts_per_sec = pos 5;
  };
  subscribers = [];
}

abbrev late_round : Round
late_round = record {
  remaining = pos 0;
  subscribers = [];
  arrival = time_over;
  send_remaining = pos 0;
  accepts = false;
}

abbrev late : Outcome
late = failed (pool no_workers)

late_run : Claims.submit dispatcher (late_round ∷ []) ≡ some late
unfolding Claims.submit Claims.round
late_run = refl

-- Job 5 is handed on under a graceful shutdown. The Submit of job 6 has passed the guard before, and
-- its select sends behind the end of the dispatcher: nil is returned, and the job stays behind.
abbrev left_behind : World ℕ
left_behind = record {
  pool = record {
    claims = dispatcher;
    capacity = 3;
    backlog = 6 ∷ [];
    reject = true;
    shutdown = true;
    canceled = false;
  };
  waiting = 0;
  in_hand = none;
  handled = (5, late) ∷ [];
  errors = (pool no_workers, 5) ∷ [];
  accepted = 5 ∷ 6 ∷ [];
  at_end = 5 ∷ [];
  ending = drained_out;
}

left_behind_reached : Reach (new_world dispatcher 3) left_behind
unfolding enter place reject_calls close_shutdown dispatch_errors
left_behind_reached =
    let waiting = later (later start (enters refl)) (enters refl) in
    let placed = later waiting (places 5 _ (omega arith) refl) in
    let closing = later (later placed rejects_calls) (closes_shutdown refl) in
    let handed =
      later (later closing (dispatches (takes 5 [] refl refl refl)))
        (dispatches (hands 5 (late_round ∷ []) late refl late_run)) in
    later (later handed (dispatches (ends_drained refl refl refl refl)))
      (places 6 _ (omega arith) refl)

pool-IsLossless_example : IsLossless left_behind
pool-IsLossless_example = pool-IsLossless dispatcher 3 left_behind left_behind_reached

abbrev shutting_down : World ℕ
shutting_down = record (new_world dispatcher 3) {
  pool = record {
    claims = dispatcher;
    capacity = 3;
    backlog = 8 ∷ 9 ∷ [];
    reject = true;
    shutdown = true;
    canceled = false;
  };
  in_hand = some 7;
  accepted = 7 ∷ 8 ∷ 9 ∷ [];
}

dispatcher-Drains_example : Drains shutting_down shutting_down
dispatcher-Drains_example =
    dispatcher-Drains shutting_down shutting_down refl refl (λ t. (late_round ∷ [], late, late_run))
      over

full_run :
    submit true none proceeds 4 (record shutting_down.pool { reject = false; capacity = 2 }) ≡ none
unfolding submit enter limited place
full_run = refl
