-- ===== src/Workerpool/Tests.antt =====
-- Runs of the autoscaler and the dispatcher.
use mathlib.Core.Option
use go_asynctasklib.Base.Table
use go_asynctasklib.Workerpool.Config.{
  AutoScaleConfig, scale_defaults, IsValid, validate, scale_defaults-IsValid, positive_or,
}
use go_asynctasklib.Workerpool.Scaler.{
  Snapshot, decide, Justified, should_scale_up, decide-Justified, scale_up_step, should_scale_down,
  up,
}
use go_asynctasklib.Base.{ℕ, ◌∷◌, map, ◌≡◌, arith, ◌==◌, none, [], refl, if◌then◌else◌, some}
use go_asynctasklib.Workerpool.Ticks.{
  Tick, Scaler, run_scaler, tick, apply_decision, present, snapshot, scale_up, scale_down, stamp_up,
  join_batch, join_one_idle, spare, joined_candidates, leave_one,
}
use go_asynctasklib.Workerpool.Victim.{
  pick_victim, Picks, IdleCandidate, consider_from, consider, choose, pick_victim_oldest,
}
use go_asynctasklib.Base.Int.{pos, ◌-ℤ◌}
use go_asynctasklib.Workerpool.Ticks.Bounds.{IsBounded, run_scaler-IsBounded}

-- Everything left to its default but the ceiling, on two processors.
abbrev given : AutoScaleConfig
given = record {
  min_size = pos 0;
  max_size = pos 3;
  scale_up_step = pos 0;
  idle_headroom = pos 0;
  interval = pos 0;
  scale_up_cooldown = pos 0;
  scale_down_cooldown = pos 0;
  scale_down_idle_period = pos 0;
}

abbrev config : AutoScaleConfig
config = scale_defaults 2 given

config-passes : validate config ≡ none
unfolding scale_defaults validate positive_or
config-passes = refl

config-IsValid : IsValid config
config-IsValid = scale_defaults-IsValid 2 given (omega arith) config-passes

abbrev load : Snapshot
load = record {
  joined = pos 1;
  idle = pos 0;
  backlog = pos 4;
  now = pos 9;
  last_up = pos 0;
  last_down = pos 0;
}

decide-up : decide load config ≡ (up, pos 1)
unfolding decide should_scale_up scale_up_step scale_defaults positive_or ◌-ℤ◌
decide-up = refl

decide-Justified_example : Justified load config (decide load config)
decide-Justified_example = decide-Justified load config config-IsValid

-- Worker 3 runs a job; worker 2 has been idle for longest.
abbrev report : ℕ → IdleCandidate
report w = record {
  is_running = w == 3;
  last_active_at = (if w == 1 then pos 800000000 else pos 100);
}

abbrev busy_tick : Tick
busy_tick = record {
  idle = pos 0;
  backlog = pos 4;
  now = pos 1000000000;
  joins = λ k. none;
  reports = report;
}

abbrev idle_tick : Tick
idle_tick = record {
  idle = pos 2;
  backlog = pos 0;
  now = pos 9000000000;
  joins = λ k. none;
  reports = report;
}

abbrev pool_of_one : Scaler
pool_of_one = record {
  workers = 1 ∷ 2 ∷ 3 ∷ [];
  joined_ids = (1, present) ∷ [];
  last_up = pos 0;
  last_down = pos 0;
}

pick_two : pick_victim (map report (1 ∷ 2 ∷ 3 ∷ [])) (pos 3000000000) (pos 2000000000) ≡ some 1
unfolding pick_victim consider_from consider choose ◌-ℤ◌
pick_two = refl

pick_victim_oldest_example :
    Picks
      (map report (1 ∷ 2 ∷ 3 ∷ []))
      (pos 3000000000)
      (pos 2000000000)
      3
      (pick_victim (map report (1 ∷ 2 ∷ 3 ∷ [])) (pos 3000000000) (pos 2000000000))
pick_victim_oldest_example =
    pick_victim_oldest (map report (1 ∷ 2 ∷ 3 ∷ [])) (pos 3000000000) (pos 2000000000)

up_and_down :
    Option.map (λ s. s.joined_ids) (run_scaler config (busy_tick ∷ idle_tick ∷ []) pool_of_one)
    ≡ some ((1, present) ∷ [])
unfolding run_scaler tick apply_decision decide should_scale_up should_scale_down scale_up_step
    scale_defaults positive_or ◌-ℤ◌ snapshot scale_up scale_down stamp_up join_batch join_one_idle
    spare Table.lookup Table.insert Table.delete joined_candidates leave_one pick_victim
    consider_from consider choose
up_and_down = refl

run_scaler-IsBounded_example :
    (u : Scaler) × (run_scaler config (busy_tick ∷ idle_tick ∷ []) pool_of_one ≡ some u)
    × IsBounded config u
unfolding scale_defaults positive_or Table.lookup
run_scaler-IsBounded_example =
    run_scaler-IsBounded config (busy_tick ∷ idle_tick ∷ []) pool_of_one config-IsValid
      (record { distinct = (refl, tt); floor = omega arith; ceiling = omega arith })
