-- ===== src/Workerpool/Worker/Tests.antt =====
-- A worker of jobs that are numbers.
use go_asynctasklib.Base.Table
use go_asynctasklib.Workerpool.Worker.{
  Worker, new_worker, notify, start_loop, end_loop, claim_taken, take_job, start_job, finish_job,
  settle_job, exit_job, exited, report, process_job, begin_leave, end_leave, join, subscribed_with,
  unsubscribed_with, cancel_joined, unstarted, choosing, over, panics, worker_started,
  worker_stopped, subscribed, unsubscribed, job_failed,
}
use go_asynctasklib.Workerpool.Worker.Reports.{
  World, Reach, Reports, ends_choosing, claims, takes, starts_job, handles, settles, exits,
  left_exited, leaves, left, start, later, reported, starts,
}
use go_asynctasklib.Workerpool.Worker.Once.{join-Reports}
use go_asynctasklib.Workerpool.Claims.{Claims, subscribe, unsubscribe}
use go_asynctasklib.Base.{ℕ, false, some, [], ◌∷◌, true, ◌≡◌, refl, none}
use go_asynctasklib.Base.Int.{pos}
use go_asynctasklib.Workerpool.Ticks.{present}
use go_asynctasklib.Base.Errors.{joined, ok, pool, worker_panic, worker_already_running, message}

abbrev idle_worker : Worker ℕ
idle_worker = record {
  id = 1;
  idle_timeout = pos 100000000;
  last_active_at = pos 3;
  running = false;
  started_notified = false;
  joined = false;
  canceled = false;
  loop = unstarted;
  events = [];
}

new_run :
    new_worker (pos 3) (some (record { id = 1; idle_timeout = pos 0; handler_set = true }))
    ≡ ok idle_worker
unfolding new_worker
new_run = refl

abbrev no_subscribers : Claims
no_subscribers = record {
  cfg = record {
    size = pos 2;
    submit_backoff = pos 50000000;
    submit_timeout = pos 1000000000;
    submit_attempts_per_sec = pos 5;
  };
  subscribers = [];
}

abbrev one_subscriber : Claims
one_subscriber = record no_subscribers { subscribers = (1, present) ∷ [] }

abbrev joined_worker : Worker ℕ
joined_worker = record idle_worker {
  last_active_at = pos 4;
  joined = true;
  loop = choosing;
  events = subscribed 1 ∷ [];
}

join_run :
    join (some none) (pos 4) (some no_subscribers) idle_worker
    ≡ (joined_worker, some one_subscriber, none)
unfolding join subscribed_with subscribe Table.insert start_loop notify
join_run = refl

-- A second leave finds no context to cancel, and panics.
leave_twice_run :
    begin_leave
      (some no_subscribers)
      (record joined_worker { joined = false; canceled = true; loop = over })
    ≡ none
unfolding begin_leave unsubscribed_with unsubscribe Table.lookup cancel_joined notify
leave_twice_run = refl

-- One job, on which the handler panics, and then leave.
abbrev left_world : World ℕ
left_world = record {
  worker = record {
    id = 1;
    idle_timeout = pos 100000000;
    last_active_at = pos 9;
    running = false;
    started_notified = true;
    joined = false;
    canceled = true;
    loop = over;
    events =
        subscribed 1
        ∷ worker_started 1
        ∷ job_failed (joined (pool worker_panic) (message 3)) 7
        ∷ unsubscribed 1
        ∷ worker_stopped 1
        ∷ [];
  };
  taken = 7 ∷ [];
  claimed = 1;
}

left_reached : Reach (record { worker = joined_worker; taken = []; claimed = 0 }) left_world
unfolding claim_taken take_job start_job finish_job settle_job process_job report notify begin_leave
    unsubscribed_with unsubscribe Table.lookup Table.delete cancel_joined end_loop end_leave
left_reached =
    let taking = later (later start (claims refl)) (takes 7 refl) in
    let handled = later (later taking (starts_job 7 refl)) (handles 7 (panics 3) refl) in
    let settled = later handled (settles (pos 9) refl) in
    let leaving = later settled (leaves (some one_subscriber) _ _ _ refl) in
    later (later leaving (ends_choosing refl refl)) (left (pos 1) refl)

join-Reports_example : Reports left_world (reported idle_worker.events) (starts idle_worker.events)
join-Reports_example =
    join-Reports (pos 4) no_subscribers idle_worker joined_worker (some one_subscriber) left_world
      join_run left_reached

-- A handler that ends by runtime.Goexit: its job is not reported, IsRunning stays true behind the
-- leave, and the worker cannot join anew.
abbrev exited_world : World ℕ
exited_world = record left_world {
  worker = record {
    id = 1;
    idle_timeout = pos 100000000;
    last_active_at = pos 4;
    running = true;
    started_notified = true;
    joined = false;
    canceled = true;
    loop = exited 7;
    events = subscribed 1 ∷ worker_started 1 ∷ unsubscribed 1 ∷ worker_stopped 1 ∷ [];
  };
}

exited_reached : Reach (record { worker = joined_worker; taken = []; claimed = 0 }) exited_world
unfolding claim_taken take_job start_job exit_job notify begin_leave unsubscribed_with unsubscribe
    Table.lookup Table.delete cancel_joined end_leave
exited_reached =
    let taking = later (later start (claims refl)) (takes 7 refl) in
    let exiting = later (later taking (starts_job 7 refl)) (exits 7 refl) in
    let leaving = later exiting (leaves (some one_subscriber) _ _ _ refl) in
    later leaving (left_exited 7 (pos 1) refl)

rejoin_run :
    join (some none) (pos 9) (some no_subscribers) exited_world.worker
    ≡ (exited_world.worker, some no_subscribers, some (pool worker_already_running))
unfolding join
rejoin_run = refl
