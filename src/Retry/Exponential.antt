-- ===== src/Retry/Exponential.antt =====
-- pkg/retry/exponential.go: the exponential backoff, over the 64-bit floats as an interface.
use go_asynctasklib.Base.{
  ℕ, suc, ◌≤◌, ◌≡◌, ◌||◌, Bool, true, Option, some, if◌then◌else◌, Bool-cases, inl, arith, inr,
  refl,
}
use go_asynctasklib.Base.Int.{ℤ, pos, ◌≤ℤ◌, ◌<ℤ◌, ltb_ℤ, leb_ℤ}
use go_asynctasklib.Retry.{Config, jittered}
use go_asynctasklib.Retry.Linear.{jittered_bounds}

-- Go's float64 with `math.Pow`, and what IEEE 754 says of it on values from one upward: products and
-- powers of two of such values stay there, and a conversion to an integer, which truncates, keeps a
-- value below `float64(m)` at most `m`.
pub record Float64 : Type 1 where
  pub Carrier : Type 0
  pub of_int : ℤ → Carrier
  pub two : Carrier
  pub pow : Carrier → Carrier → Carrier
  pub times : Carrier → Carrier → Carrier
  pub less : Carrier → Carrier → Bool
  pub to_duration : Carrier → ℤ
  pub AtLeastOne : Carrier → Type 0
  pub of_int_positive : (n : ℤ) → pos 0 <ℤ n → AtLeastOne (of_int n)
  pub pow_positive : (n : ℤ) → pos 0 ≤ℤ n → AtLeastOne (pow two (of_int n))
  pub times_positive : (x y : Carrier) → AtLeastOne x → AtLeastOne y → AtLeastOne (times x y)
  pub to_duration_below :
      (x : Carrier) (m : ℤ)
      → AtLeastOne x
      → less x (of_int m) ≡ true
      → (pos 0 <ℤ to_duration x) × (to_duration x ≤ℤ m)

module _ (f : Float64) where
  -- The delay before the jitter.
  unfoldable pub uncapped : Config → ℤ → f.Carrier
  uncapped c attempt = f.times (f.of_int c.base_delay) (f.pow f.two (f.of_int attempt))

  unfoldable pub capped : Config → ℤ → ℤ
  capped c attempt =
      if f.less (uncapped c attempt) (f.of_int c.max_delay)
      then f.to_duration (uncapped c attempt)
      else c.max_delay

  unfoldable pub delay : Config → (ℕ → ℕ) → ℤ → Option ℤ
  delay c draw attempt =
      if leb_ℤ c.base_delay (pos 0) || ltb_ℤ attempt (pos 0)
      then some (pos 0)
      else jittered c draw (capped c attempt)

  capped_bounds :
      (c : Config) (attempt : ℤ)
      → pos 0 <ℤ c.base_delay
      → pos 0 ≤ℤ attempt
      → pos 0 ≤ℤ c.max_delay
      → (pos 0 ≤ℤ capped c attempt) × (capped c attempt ≤ℤ c.max_delay)
  unfolding capped uncapped
  capped_bounds c attempt b a z =
      let large = f.times_positive _ _ (f.of_int_positive _ b) (f.pow_positive _ a) in
      elim (Bool-cases (f.less (uncapped c attempt) (f.of_int c.max_delay))) [
        | inl e ↦ let (above, below) = f.to_duration_below _ _ large e in rw e (omega arith, below)
        | inr e ↦ rw e (z, omega arith)
      ]

  -- For every configuration whose maxDelay is not negative and below the largest int64, every
  -- attempt and every lawful draw, ExponentialBackoff.Delay returns a delay from 0 to maxDelay, with
  -- floats that keep the laws of the interface.
  pub delay_within :
      (c : Config) (draw : ℕ → ℕ) (attempt : ℤ)
      → ((n : ℕ) → draw (suc n) ≤ n)
      → pos 0 ≤ℤ c.max_delay
      → c.max_delay <ℤ pos 9223372036854775807
      → (r : ℤ) × (delay c draw attempt ≡ some r) × (pos 0 ≤ℤ r) × (r ≤ℤ c.max_delay)
  unfolding delay
  delay_within c draw attempt law z k =
      elim (Bool-cases (leb_ℤ c.base_delay (pos 0) || ltb_ℤ attempt (pos 0))) [
        | inl e ↦ (pos 0, rw e refl, omega arith, z)
        | inr e ↦
            let (above, below) = capped_bounds c attempt (ground arith) (ground arith) z in
            let (r, g, u, v) =
              jittered_bounds c draw (capped c attempt) c.max_delay law below z k in
            (r, rw e g, v above, u)
      ]
