-- ===== src/Retry/Linear.antt =====
-- pkg/retry/linear.go: the linear backoff, its arithmetic that of int64.
use go_asynctasklib.Base.{
  ℕ, suc, ◌≤◌, ◌≡◌, Option, some, arith, ◌<◌, false, zero, ◌*◌, ◌-◌, refl, Bool-cases, inl, inr,
  ◌⊎◌, ltb,
}
use go_asynctasklib.Base.Int.{ℤ, pos, ◌+ℤ◌, ◌*ℤ◌, ◌≤ℤ◌, ◌<ℤ◌, negsuc}
use go_asynctasklib.Retry.{Config, jittered, cap_delay, wrap_int64, apply_jitter, signed}

unfoldable pub delay : Config → (ℕ → ℕ) → ℤ → Option ℤ
delay c draw attempt =
    jittered c draw
      (cap_delay (wrap_int64 (c.base_delay *ℤ wrap_int64 (attempt +ℤ pos 1))) c.max_delay)

cap_delay-≤ℤ : (d m : ℤ) → cap_delay d m ≤ℤ m
unfolding cap_delay
cap_delay-≤ℤ d m = ground arith

cap_delay-negsuc : (n : ℕ) (m : ℤ) → pos 0 ≤ℤ m → cap_delay (negsuc n) m ≡ negsuc n
unfolding cap_delay
cap_delay-negsuc n m h = ground arith

+ℤ_suc : (n : ℕ) → pos n +ℤ pos 1 ≡ pos (suc n)
unfolding ◌+ℤ◌
+ℤ_suc n = ground arith

*ℤ_pos : (a b : ℕ) → pos a *ℤ pos b ≡ pos (a * b)
unfolding ◌*ℤ◌
*ℤ_pos a b = ground arith

wrap_large :
    (n : ℕ)
    → 9223372036854775808 ≤ n
    → n < 18446744073709551616
    → wrap_int64 (pos n) ≡ negsuc (18446744073709551615 - n)
unfolding wrap_int64 signed
wrap_large n h k = ground arith

wrap_small : (n : ℕ) → n < 9223372036854775808 → wrap_int64 (pos n) ≡ pos n
unfolding wrap_int64 signed
wrap_small n h = ground arith

apply_jitter-draw :
    (draw : ℕ → ℕ) (n : ℕ)
    → suc n < 9223372036854775807
    → apply_jitter draw (pos (suc n)) ≡ some (pos (draw (suc (suc n))))
unfolding apply_jitter
apply_jitter-draw draw n h = ground (arith, +ℤ_suc (suc n), wrap_small (suc (suc n)) (omega arith))

apply_jitter_bounds :
    (draw : ℕ → ℕ) (d m : ℤ)
    → ((n : ℕ) → draw (suc n) ≤ n)
    → d ≤ℤ m
    → pos 0 ≤ℤ m
    → m <ℤ pos 9223372036854775807
    → (r : ℤ) × (apply_jitter draw d ≡ some r) × (r ≤ℤ m) × (pos 0 ≤ℤ d → pos 0 ≤ℤ r)
unfolding apply_jitter
apply_jitter_bounds draw (negsuc d) m law h z k = (pos 0, ground arith, z, λ p. omega arith)
apply_jitter_bounds draw (pos zero) m law h z k = (pos 0, refl, z, λ p. omega arith)
apply_jitter_bounds draw (pos (suc d)) m law h z k = (
  pos (draw (suc (suc d))),
  apply_jitter-draw draw d (omega arith),
  omega (arith, law (suc d)),
  λ p. omega arith,
)

-- A jittered delay is at most the bound of the delay, and nothing panics below the largest int64.
pub jittered_bounds :
    (c : Config) (draw : ℕ → ℕ) (d m : ℤ)
    → ((n : ℕ) → draw (suc n) ≤ n)
    → d ≤ℤ m
    → pos 0 ≤ℤ m
    → m <ℤ pos 9223372036854775807
    → (r : ℤ) × (jittered c draw d ≡ some r) × (r ≤ℤ m) × (pos 0 ≤ℤ d → pos 0 ≤ℤ r)
unfolding jittered
jittered_bounds c draw d m law h z k = elim (Bool-cases c.jitter) [
  | inl e ↦ rw e (apply_jitter_bounds draw d m law h z k)
  | inr e ↦ (d, rw e refl, h, λ p. p)
]

-- For every configuration whose maxDelay is not negative and below the largest int64, every attempt
-- and every lawful draw, Linear.Delay returns, and what it returns is at most maxDelay.
pub delay_bounded :
    (c : Config) (draw : ℕ → ℕ) (attempt : ℤ)
    → ((n : ℕ) → draw (suc n) ≤ n)
    → pos 0 ≤ℤ c.max_delay
    → c.max_delay <ℤ pos 9223372036854775807
    → (r : ℤ) × (delay c draw attempt ≡ some r) × (r ≤ℤ c.max_delay)
unfolding delay
delay_bounded c draw attempt law z k =
    let (r, e, below, _) = jittered_bounds c draw _ c.max_delay law (cap_delay-≤ℤ _ _) z k in
    (r, e, below)

-- Without jitter and while baseDelay * (attempt + 1) stays below 2 ^ 63, Linear.Delay is that
-- product, capped at maxDelay.
delay_exact :
    (c : Config) (draw : ℕ → ℕ) (base n : ℕ)
    → c.jitter ≡ false
    → c.base_delay ≡ pos base
    → suc n < 9223372036854775808
    → base * suc n < 9223372036854775808
    → delay c draw (pos n) ≡ some (cap_delay (pos (base * suc n)) c.max_delay)
unfolding delay jittered
delay_exact c draw base n e f g h =
    rw (e, f, +ℤ_suc n, wrap_small (suc n) g, *ℤ_pos base (suc n), wrap_small (base * suc n) h) refl

-- Without jitter and once baseDelay * (attempt + 1) reaches 2 ^ 63, up to 2 ^ 64, Linear.Delay is
-- negative: the product overflows and the cap does not see it.
delay_overflow :
    (c : Config) (draw : ℕ → ℕ) (base n : ℕ)
    → c.jitter ≡ false
    → c.base_delay ≡ pos base
    → suc n < 9223372036854775808
    → 9223372036854775808 ≤ base * suc n
    → base * suc n < 18446744073709551616
    → pos 0 ≤ℤ c.max_delay
    → (r : ℤ) × (delay c draw (pos n) ≡ some r) × (r <ℤ pos 0)
unfolding delay jittered
delay_overflow c draw base n e f g h k z = (
  negsuc (18446744073709551615 - base * suc n),
  rw
      (
        e,
        f,
        +ℤ_suc n,
        wrap_small (suc n) g,
        *ℤ_pos base (suc n),
        wrap_large (base * suc n) h k,
        cap_delay-negsuc (18446744073709551615 - base * suc n) c.max_delay z,
      )
      refl,
  omega arith,
)

-- Without jitter and while baseDelay * (attempt + 1) stays below 2 ^ 64, Linear.Delay returns: below
-- 2 ^ 63 that product, capped at maxDelay, and from there on a negative number, since the product
-- overflows and the cap does not see it.
pub delay_wraps :
    (c : Config) (draw : ℕ → ℕ) (base n : ℕ)
    → c.jitter ≡ false
    → c.base_delay ≡ pos base
    → suc n < 9223372036854775808
    → base * suc n < 18446744073709551616
    → pos 0 ≤ℤ c.max_delay
    → (r : ℤ) × (delay c draw (pos n) ≡ some r)
      × (((base * suc n < 9223372036854775808) × (r ≡ cap_delay (pos (base * suc n)) c.max_delay))
          ⊎ ((9223372036854775808 ≤ base * suc n) × (r <ℤ pos 0)))
delay_wraps c draw base n e f g k z = elim (Bool-cases (ltb (base * suc n) 9223372036854775808)) [
  | inl b ↦
      let small : base * suc n < 9223372036854775808 = ground (arith, b) in
      (
        cap_delay (pos (base * suc n)) c.max_delay,
        delay_exact c draw base n e f g small,
        inl (small, refl),
      )
  | inr b ↦
      let large : 9223372036854775808 ≤ base * suc n = ground (arith, b) in
      let (r, q, below) = delay_overflow c draw base n e f g large k z in (r, q, inr (large, below))
]
