-- ===== src/Workerpool/JobContext/Lookup.antt =====
-- jobcontext.go: Value and Deadline against what their parents hold.
use go_asynctasklib.Workerpool.JobContext.{AnyValue, deadline, comparable, uncomparable}
use go_asynctasklib.Base.{Option, some, ◌≡◌, none, ◌⊎◌, refl, inl, inr, arith, if_both}
use go_asynctasklib.Base.Int.{ℤ, ◌≤ℤ◌, ltb_ℤ}

-- Both hold values of one dynamic type that has no equality.
abbrev pub Clash : Option AnyValue → Option AnyValue → Type 0
Clash none s = ⊥
Clash (some p) none = ⊥
Clash (some (comparable s a)) (some v) = ⊥
Clash (some (uncomparable s a)) (some (comparable t b)) = ⊥
Clash (some (uncomparable s a)) (some (uncomparable t b)) = s ≡ t

-- The submit side's value, or else the pool's.
abbrev pub prefer : Option AnyValue → Option AnyValue → Option AnyValue
prefer none pool_val = pool_val
prefer (some v) pool_val = some v

-- No deadline if neither parent has one.
abbrev pub Earliest : Option ℤ → Option ℤ → Option ℤ → Type 0
Earliest p s none = (p ≡ none) × (s ≡ none)
Earliest p s (some d) =
    ((p ≡ some d) ⊎ (s ≡ some d)) × ((e : ℤ) → (p ≡ some e) ⊎ (s ≡ some e) → d ≤ℤ e)

no_later : (d e c : ℤ) → d ≤ℤ c → some c ≡ some e → d ≤ℤ e
no_later d e c l f = ground (arith, l, f)

pub deadline-Earliest : (p s : Option ℤ) → Earliest p s (deadline p s)
unfolding deadline
deadline-Earliest none none = (refl, refl)
deadline-Earliest none (some d) =
    (inr refl, λ e f. elim f [ inl g ↦ absurd cc | inr g ↦ no_later d e d (omega arith) g ])
deadline-Earliest (some d) none =
    (inl refl, λ e f. elim f [ inr g ↦ absurd cc | inl g ↦ no_later d e d (omega arith) g ])
deadline-Earliest (some c) (some d) =
    if_both (λ x. Earliest (some c) (some d) (some x)) (ltb_ℤ c d) c d
      (λ q. (
        inl refl,
        λ e f. elim f [
          | inl g ↦ no_later c e c (ground arith) g
          | inr g ↦ no_later c e d (ground (arith, q)) g
        ],
      ))
      (λ q. (
        inr refl,
        λ e f. elim f [
          | inl g ↦ no_later d e c (ground (arith, q)) g
          | inr g ↦ no_later d e d (ground arith) g
        ],
      ))
