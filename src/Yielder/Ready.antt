-- ===== src/Yielder/Ready.antt =====
-- yielder.go: what newYielder promises of the settings, and which error it reports.
use go_asynctasklib.Base.{
  none, some, inl, inr, Option, if◌then◌else◌, List, ◌≢◌, ◌≡◌, arith, ◌⊎◌, refl,
}
use go_asynctasklib.Yielder.{
  Settings, new_yielder, with_defaults, YielderOption, apply_options, require_generator, Source,
}
use go_asynctasklib.Base.Int.{ℤ, pos, eqb_ℤ, ◌<ℤ◌, leb_ℤ}
use go_asynctasklib.Base.Errors.{Error, Result, ok, err, wrapped, yield_error, nil_generator}

timeout_set : (t : ℤ) → (if eqb_ℤ t (pos 0) then pos 1000000000 else t) ≢ pos 0
timeout_set t e = ground arith

buf_set : (n : ℤ) → pos 0 <ℤ (if leb_ℤ n (pos 0) then pos 1 else n)
buf_set n = ground arith

module _ {A : Type 0} where
  -- A live context and a generator give settings with that generator, a timeout other than zero and
  -- room in the channel; the error is the context's, or that of a missing generator.
  abbrev pub Answers : Option Error → Settings A → Result (Settings A) → Type 0
  Answers ctx y (ok z) =
      (ctx ≡ none) × (z.fn ≡ y.fn) × (z.fn ≢ none) × (z.timeout ≢ pos 0) × (pos 0 <ℤ z.buf)
  Answers ctx y (err e) =
      (ctx ≡ some e) ⊎ ((y.fn ≡ none) × (e ≡ wrapped (yield_error nil_generator)))

  abbrev pub unset : Settings A
  unset = record { fn = none; timeout = pos 0; buf = pos 0 }

  require_generator-Answers :
      (y : Settings A) (o : Option (Source A)) → y.fn ≡ o → Answers none y (require_generator y o)
  unfolding require_generator with_defaults
  require_generator-Answers y none e = inr (e, refl)
  require_generator-Answers y (some g) e =
      (refl, refl, λ n. absurd (ground (arith, e, n)), timeout_set y.timeout, buf_set y.buf)

  -- newYielder answers as the context and the options ask: a live context with a generator gives
  -- settings with that generator, a timeout other than zero and room for a value; otherwise the
  -- error is the context's, or that of the nil generator.
  pub new_yielder-Answers :
      (ctx : Option Error) (opts : List (YielderOption A))
      → Answers ctx (apply_options opts unset) (new_yielder ctx opts)
  unfolding new_yielder
  new_yielder-Answers (some e) opts = inl refl
  new_yielder-Answers none opts =
      let y = apply_options opts unset in require_generator-Answers y y.fn refl
