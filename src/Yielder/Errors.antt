-- ===== src/Yielder/Errors.antt =====
-- yielder.go: what keeping an error changes, and what it leaves alone.
use go_asynctasklib.Base.{
  ℕ, ◌≡◌, length, arith, ◌≢◌, Option-cases, Option, ◌≤◌, ap, none, inl, some, ◌∙◌, inr, refl,
}
use go_asynctasklib.Yielder.{set_err, Yielder, fail, stop_err, finish, cancel}
use go_asynctasklib.Base.Errors.{Error}

module _ {A : Type 0} where
  pub set_err-kept : (e : Error) (y : Yielder A) → (set_err e y).kept ≢ none
  unfolding set_err
  set_err-kept e y h = elim (Option-cases y.kept) [
    | inl f ↦ absurd (ground (arith, f, h))
    | inr (x, f) ↦ absurd (ground (arith, f, h))
  ]

  -- What an error leaves alone.
  abbrev pub Same : Yielder A → Yielder A → Type 0
  Same y z = (z.channel ≡ y.channel) × (z.buf ≡ y.buf)

  pub set_err-Same : (e : Error) (y : Yielder A) → Same y (set_err e y)
  unfolding set_err
  set_err-Same e y = elim (Option-cases y.kept) [
    | inl f ↦ rw (set_err, f) (refl, refl)
    | inr (x, f) ↦ rw (set_err, f) (refl, refl)
  ]

  pub fail-kept : (e : Error) (y : Yielder A) → (fail e y).kept ≢ none
  unfolding fail finish cancel
  fail-kept e y = set_err-kept e y

  pub fail-Same : (e : Error) (y : Yielder A) → Same y (fail e y)
  unfolding fail finish cancel
  fail-Same e y = set_err-Same e y

  pub stop_err-Same : (e : Option Error) (y : Yielder A) → Same y (stop_err e y)
  unfolding stop_err cancel
  stop_err-Same none y = (refl, refl)
  stop_err-Same (some e) y = set_err-Same _ y

  pub stop_err-keeps :
      (e : Option Error) (y : Yielder A) → y.kept ≢ none → (stop_err e y).kept ≢ none
  unfolding stop_err cancel
  stop_err-keeps none y h = h
  stop_err-keeps (some e) y h = set_err-kept _ y

  -- The channel holds at most its buffer.
  abbrev pub Fits : ℕ → Yielder A → Type 0
  Fits n y = (length y.channel ≤ n) × (y.buf ≡ n)

  pub Same-Fits : (n : ℕ) (y z : Yielder A) → Same y z → Fits n y → Fits n z
  Same-Fits n y z (c, b) (l, e) = (omega (arith, ap length c), b ∙ e)
