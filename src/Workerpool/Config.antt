-- ===== src/Workerpool/Config.antt =====
-- pkg/workerpool/pool.go: Config and AutoScaleConfig, their defaults and the validation.
use go_asynctasklib.Base.{ℕ, Option, none, some, ◌≡◌, if◌then◌else◌, arith, ◌<◌}
use go_asynctasklib.Base.Int.{ℤ, pos, ◌≤ℤ◌, ◌<ℤ◌, ltb_ℤ, leb_ℤ}
use go_asynctasklib.Base.Errors.{Error, message}

pub record AutoScaleConfig : Type 0 where
  pub min_size : ℤ
  pub max_size : ℤ
  pub scale_up_step : ℤ
  pub idle_headroom : ℤ
  pub interval : ℤ
  pub scale_up_cooldown : ℤ
  pub scale_down_cooldown : ℤ
  pub scale_down_idle_period : ℤ

-- `field <= 0` replaces the field by its default.
unfoldable pub positive_or : ℤ → ℤ → ℤ
positive_or default value = if leb_ℤ value (pos 0) then default else value

unfoldable pub scale_defaults : ℕ → AutoScaleConfig → AutoScaleConfig
scale_defaults cpus c = record {
  max_size = positive_or (pos cpus) c.max_size;
  min_size = positive_or (pos 1) c.min_size;
  scale_up_step = positive_or (pos 1) c.scale_up_step;
  idle_headroom = positive_or (pos 1) c.idle_headroom;
  interval = positive_or (pos 100000000) c.interval;
  scale_up_cooldown = (if ltb_ℤ c.scale_up_cooldown (pos 0) then pos 0 else c.scale_up_cooldown);
  scale_down_cooldown = positive_or (pos 5000000000) c.scale_down_cooldown;
  scale_down_idle_period = positive_or (pos 2000000000) c.scale_down_idle_period;
}

unfoldable pub validate : AutoScaleConfig → Option Error
validate c = if ltb_ℤ c.max_size c.min_size then some (message 0) else none

-- What a configuration is after the defaults and the validation.
pub record IsValid (c : AutoScaleConfig) : Type 0 where
  pub floor : pos 0 <ℤ c.min_size
  pub ordered : c.min_size ≤ℤ c.max_size
  pub step : pos 0 <ℤ c.scale_up_step
  pub headroom : pos 0 <ℤ c.idle_headroom
  pub ticking : pos 0 <ℤ c.interval
  pub up_cooldown : pos 0 ≤ℤ c.scale_up_cooldown
  pub down_cooldown : pos 0 <ℤ c.scale_down_cooldown
  pub idle_period : pos 0 <ℤ c.scale_down_idle_period

positive_or_positive : (d v : ℤ) → pos 0 <ℤ d → pos 0 <ℤ positive_or d v
unfolding positive_or
positive_or_positive d v h = ground arith

-- On a machine with a processor, a configuration that passes the validation after its defaults were
-- applied has a floor of at least one worker, no floor above the ceiling, and a positive step,
-- headroom, tick and idle period.
pub scale_defaults-IsValid :
    (cpus : ℕ) (c : AutoScaleConfig)
    → 0 < cpus
    → validate (scale_defaults cpus c) ≡ none
    → IsValid (scale_defaults cpus c)
unfolding scale_defaults validate
scale_defaults-IsValid cpus c h v = record {
  floor = positive_or_positive (pos 1) c.min_size (omega arith);
  ordered = ground arith;
  step = positive_or_positive (pos 1) c.scale_up_step (omega arith);
  headroom = positive_or_positive (pos 1) c.idle_headroom (omega arith);
  ticking = positive_or_positive (pos 100000000) c.interval (omega arith);
  up_cooldown = ground arith;
  down_cooldown = positive_or_positive (pos 5000000000) c.scale_down_cooldown (omega arith);
  idle_period = positive_or_positive (pos 2000000000) c.scale_down_idle_period (omega arith);
}
