-- ===== src/Workerpool/Start/Tests.antt =====
-- Small pools, with a rate that is a number.
use go_asynctasklib.Workerpool.Start.{
  PoolConfig, PoolOption, Started, new, require, configure, scaled, build, with_claims,
  with_workers, join_mode, started, apply_options, apply_option, apply_defaults, join_initial,
  join_next, put_worker, add_worker, create_workers, mode_auto_scale, with_config, with_handler,
}
use go_asynctasklib.Workerpool.Start.Ready.{IsReady, new-IsReady}
use go_asynctasklib.Workerpool.Claims as Claims
use go_asynctasklib.Workerpool.Claims.{ClaimsConfig, new_claims, zero_or, subscribe}
use go_asynctasklib.Workerpool.Config.{AutoScaleConfig, scale_defaults, validate, positive_or}
use go_asynctasklib.Workerpool.Worker.{
  Worker, new_worker, join, subscribed_with, start_loop, notify, unstarted, choosing, subscribed,
}
use go_asynctasklib.Base.Table
use go_asynctasklib.Base.Int.{pos}
use go_asynctasklib.Base.{ℕ, List, false, true, some, none, [], ◌∷◌, ltb, ◌≡◌, arith, refl}
use go_asynctasklib.Workerpool.Ticks.{present}
use go_asynctasklib.Base.Errors.{ok, err, joined, pool, invalid_pool, message}

abbrev scaling : AutoScaleConfig
scaling = record {
  min_size = pos 0;
  max_size = pos 2;
  scale_up_step = pos 0;
  idle_headroom = pos 0;
  interval = pos 0;
  scale_up_cooldown = pos 0;
  scale_down_cooldown = pos 0;
  scale_down_idle_period = pos 0;
}

abbrev unset : ClaimsConfig
unset = record {
  size = pos 0;
  submit_backoff = pos 0;
  submit_timeout = pos 0;
  submit_attempts_per_sec = pos 0;
}

abbrev config : PoolConfig ℕ
config = record {
  claims = unset;
  mode = mode_auto_scale;
  rate_limit = 0;
  backlog = pos 0;
  auto_scale = scaling;
}

abbrev spare_worker : Worker ℕ
spare_worker = record {
  id = 2;
  idle_timeout = pos 100000000;
  last_active_at = pos 3;
  running = false;
  started_notified = false;
  joined = false;
  canceled = false;
  loop = unstarted;
  events = [];
}

abbrev small : Started ℕ ℕ
small = record {
  cfg = record {
    claims = record {
      size = pos 2;
      submit_backoff = pos 50000000;
      submit_timeout = pos 1000000000;
      submit_attempts_per_sec = pos 5;
    };
    mode = mode_auto_scale;
    rate_limit = 750;
    backlog = pos 1000;
    auto_scale = record {
      min_size = pos 1;
      max_size = pos 2;
      scale_up_step = pos 1;
      idle_headroom = pos 1;
      interval = pos 100000000;
      scale_up_cooldown = pos 0;
      scale_down_cooldown = pos 5000000000;
      scale_down_idle_period = pos 2000000000;
    };
  };
  initial = record {
    workers =
        record spare_worker { id = 1; joined = true; loop = choosing; events = subscribed 1 ∷ [] }
        ∷ spare_worker
        ∷ [];
    claims = record {
      cfg = record {
        size = pos 2;
        submit_backoff = pos 50000000;
        submit_timeout = pos 1000000000;
        submit_attempts_per_sec = pos 5;
      };
      subscribers = (1, present) ∷ [];
    };
    joined_ids = (1, present) ∷ [];
  };
}

abbrev options : List (PoolOption ℕ)
options = with_config (some config) ∷ with_handler true ∷ []

small_run : new 4 (pos 3) (λ _. none) (λ r. ltb 0 r) 750 (some none) options ≡ ok small
unfolding new require configure scaled build with_claims with_workers join_mode started
    apply_options apply_option apply_defaults join_initial join_next put_worker add_worker
    create_workers Claims.apply_defaults new_claims zero_or subscribe scale_defaults validate
    positive_or new_worker join subscribed_with start_loop notify Table.insert
small_run = refl

new-IsReady_example : IsReady small
new-IsReady_example =
    new-IsReady 4 (pos 3) (λ _. none) (λ r. ltb 0 r) 750 (some none) options small (omega arith)
      small_run

-- A floor above the ceiling.
unordered_run :
    new {R = ℕ} {J = ℕ} 4
      (pos 3)
      (λ _. none)
      (λ r. ltb 0 r)
      750
      (some none)
      (with_handler true
        ∷ with_config (some (record config { auto_scale = record scaling { min_size = pos 3 } }))
        ∷ [])
    ≡ err (joined (pool invalid_pool) (message 0))
unfolding new require configure scaled apply_options apply_option apply_defaults scale_defaults
    validate positive_or
unordered_run = refl
