-- ===== src/Retry.antt =====
-- pkg/retry: the configuration of the strategies, the cap and the jitter (strategy.go).
pub mod Linear
pub mod Exponential
mod Tests
use go_asynctasklib.Base.{
  ℕ, suc, ◌-◌, ◌%◌, Option, none, some, List, [], ◌∷◌, Bool, false, ltb, if◌then◌else◌,
}
use go_asynctasklib.Base.Int.{ℤ, pos, negsuc, ◌+ℤ◌, ltb_ℤ, leb_ℤ}

-- The options, which set one field each; `none` in a list of them is a nil function.
pub data OptionFunc : Type 0 where
  with_base_delay with_max_delay : ℤ → OptionFunc
  with_jitter : Bool → OptionFunc

pub record Config : Type 0 where
  pub base_delay : ℤ
  pub max_delay : ℤ
  pub jitter : Bool

abbrev pub default_base_delay : ℤ
default_base_delay = pos 100000000

abbrev pub default_max_delay : ℤ
default_max_delay = pos 30000000000

unfoldable pub default_config : Config
default_config = record {
  base_delay = default_base_delay;
  max_delay = default_max_delay;
  jitter = false;
}

unfoldable pub apply_option : Option OptionFunc → Config → Config
apply_option none c = c
apply_option (some (with_base_delay d)) c = record c { base_delay = d }
apply_option (some (with_max_delay d)) c = record c { max_delay = d }
apply_option (some (with_jitter j)) c = record c { jitter = j }

-- The loop of applyConfig, from the configuration reached so far.
unfoldable pub apply_options : List (Option OptionFunc) → Config → Config
apply_options [] c = c
apply_options (o ∷ os) c = apply_options os (apply_option o c)

unfoldable pub apply_config : List (Option OptionFunc) → Config
apply_config opts = apply_options opts default_config

-- The value that an int64 keeps of a number: the bits below 2 ^ 64, the highest for the sign.
unfoldable pub signed : ℕ → ℤ
signed n = if ltb n 9223372036854775808 then pos n else negsuc (18446744073709551615 - n)

unfoldable pub wrap_int64 : ℤ → ℤ
wrap_int64 (pos n) = signed (n % 18446744073709551616)
wrap_int64 (negsuc n) = signed (18446744073709551615 - n % 18446744073709551616)

unfoldable pub cap_delay : ℤ → ℤ → ℤ
cap_delay delay max_dur = if ltb_ℤ max_dur delay then max_dur else delay

-- `draw n` is what crypto/rand draws below `n`; `rand.Int` panics on a bound that is not positive,
-- which `int64(delay) + 1` is when it overflows.
unfoldable pub apply_jitter : (ℕ → ℕ) → ℤ → Option ℤ
apply_jitter draw delay =
    if leb_ℤ delay (pos 0)
    then some (pos 0)
    else (elim (wrap_int64 (delay +ℤ pos 1)) [ pos (suc n) ↦ some (pos (draw (suc n))) | _ ↦ none ])

-- The last step of both strategies.
unfoldable pub jittered : Config → (ℕ → ℕ) → ℤ → Option ℤ
jittered c draw d = if c.jitter then apply_jitter draw d else some d
