-- ===== src/Workerpool/Closing/Tests.antt =====
-- The end of a pool of two workers, of which one has joined.
use go_asynctasklib.Workerpool.Closing.{joined_workers, close_workers}
use go_asynctasklib.Workerpool.Closing.Leaves.{Leaves, close_workers-Leaves}
use go_asynctasklib.Workerpool.Worker.{Worker, choosing, unstarted}
use go_asynctasklib.Workerpool.Claims.{Claims}
use go_asynctasklib.Base.Table
use go_asynctasklib.Base.{ℕ, List, ◌∷◌, false, [], true, ◌≡◌, refl}
use go_asynctasklib.Base.Int.{pos}
use go_asynctasklib.Workerpool.Ticks.{present, Present}

abbrev joined_worker : Worker ℕ
joined_worker = record {
  id = 1;
  idle_timeout = pos 100000000;
  last_active_at = pos 3;
  running = false;
  started_notified = false;
  joined = true;
  canceled = false;
  loop = choosing;
  events = [];
}

abbrev idle_worker : Worker ℕ
idle_worker = record joined_worker { id = 2; joined = false; loop = unstarted }

abbrev two_subscribers : Claims
two_subscribers = record {
  cfg = record {
    size = pos 2;
    submit_backoff = pos 50000000;
    submit_timeout = pos 1000000000;
    submit_attempts_per_sec = pos 5;
  };
  subscribers = (1, present) ∷ (7, present) ∷ [];
}

abbrev ids : List (ℕ × Present)
ids = (1, present) ∷ []

one_run : joined_workers ids (joined_worker ∷ idle_worker ∷ []) ≡ joined_worker ∷ []
unfolding joined_workers Table.lookup
one_run = refl

close_workers-Leaves_example :
    Leaves
      (joined_workers ids (joined_worker ∷ idle_worker ∷ []))
      two_subscribers
      (close_workers (λ _. false) (pos 5) ids (joined_worker ∷ idle_worker ∷ []) two_subscribers)
unfolding joined_workers Table.lookup
close_workers-Leaves_example =
    close_workers-Leaves (λ _. false) (pos 5) ids (joined_worker ∷ idle_worker ∷ []) two_subscribers
      (refl, tt)
