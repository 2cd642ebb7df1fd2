-- ===== src/Retry/Tests.antt =====
-- Runs of the two strategies.
use go_asynctasklib.Retry.Linear
use go_asynctasklib.Retry.Exponential
use go_asynctasklib.Retry.{
  Config, apply_config, apply_options, with_base_delay, apply_option, default_config, jittered,
  with_max_delay, cap_delay, wrap_int64, signed,
}
use go_asynctasklib.Base.{
  ℕ, some, true, ◌-◌, suc, ◌<◌, ◌≤◌, ◌^◌, ◌∷◌, arith, ◌*◌, none, ◌≡◌, zero, ltb, refl, [], ◌⊎◌,
}
use go_asynctasklib.Retry.Exponential.{Float64}
use go_asynctasklib.Base.Int.{pos, pos_part, ℤ, ◌≤ℤ◌, ◌<ℤ◌, ◌*ℤ◌, ◌+ℤ◌}

-- The base delay is 300 ms, the largest delay one second.
abbrev config : Config
config =
    apply_config
      (some (with_base_delay (pos 300000000)) ∷ none ∷ some (with_max_delay (pos 1000000000)) ∷ [])

abbrev jitter_config : Config
jitter_config = record config { jitter = true }

-- A draw that always takes the largest number below the bound.
abbrev last_draw : ℕ → ℕ
last_draw n = n - 1

last_draw_lawful : (n : ℕ) → last_draw (suc n) ≤ n
last_draw_lawful n = omega arith

config_fields : (config.base_delay ≡ pos 300000000) × (config.max_delay ≡ pos 1000000000)
unfolding apply_config apply_options apply_option default_config
config_fields = (refl, refl)

jitter_config-fields : (jitter_config.jitter ≡ true) × (jitter_config.max_delay ≡ pos 1000000000)
unfolding apply_config apply_options apply_option default_config
jitter_config-fields = (refl, refl)

linear_delays :
    (Linear.delay config last_draw (pos 1) ≡ some (pos 600000000))
    × (Linear.delay config last_draw (pos 7) ≡ some (pos 1000000000))
unfolding apply_config apply_options apply_option default_config Linear.delay jittered cap_delay
    wrap_int64 signed ◌*ℤ◌ ◌+ℤ◌
linear_delays = (refl, refl)

overflow_config : Config
overflow_config = record config { base_delay = pos 4611686018427387904 }

linear-delay_wraps_example :
    (r : ℤ) × (Linear.delay overflow_config last_draw (pos 1) ≡ some r)
    × (((4611686018427387904 * 2 < 9223372036854775808)
          × (r ≡ cap_delay (pos (4611686018427387904 * 2)) overflow_config.max_delay))
        ⊎ ((9223372036854775808 ≤ 4611686018427387904 * 2) × (r <ℤ pos 0)))
unfolding apply_config apply_options apply_option default_config overflow_config
linear-delay_wraps_example =
    Linear.delay_wraps overflow_config last_draw 4611686018427387904 1 refl refl (omega arith)
      (omega arith) (omega arith)

product_positive : (x y : ℕ) → 0 < x → 0 < y → 0 < x * y
product_positive zero y h k = elim h [ ]
product_positive (suc x) zero h k = elim k [ ]
product_positive (suc x) (suc y) h k = omega arith

power_positive : (n : ℕ) → 0 < 2 ^ n
power_positive zero = omega arith
power_positive (suc n) = omega (arith, power_positive n)

-- Floats without rounding and bound.
abbrev exact : Float64
exact = record {
  Carrier = ℕ;
  of_int = pos_part;
  two = 2;
  pow = λ x y. x ^ y;
  times = λ x y. x * y;
  less = ltb;
  to_duration = pos;
  AtLeastOne = λ x. 0 < x;
  of_int_positive = λ n h. omega arith;
  pow_positive = λ n h. power_positive (pos_part n);
  times_positive = λ x y h k. product_positive x y h k;
  to_duration_below = λ x m h e. (omega arith, ground arith);
}

exponential-delay_within_example :
    (r : ℤ) × (Exponential.delay exact jitter_config last_draw (pos 2) ≡ some r)
    × (pos 0 ≤ℤ r)
    × (r ≤ℤ jitter_config.max_delay)
unfolding apply_config apply_options apply_option default_config
exponential-delay_within_example =
    Exponential.delay_within exact jitter_config last_draw (pos 2) last_draw_lawful (omega arith)
      (omega arith)
