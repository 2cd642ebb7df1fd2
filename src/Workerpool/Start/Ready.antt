-- ===== src/Workerpool/Start/Ready.antt =====
-- pool.go: the pool that New returns is ready for its dispatcher and its autoscaler.
use go_asynctasklib.Workerpool.Start.Joining.{
  create_workers-Numbered, join_initial-Grown, Numbered, none_joined,
}
use go_asynctasklib.Workerpool.Start.{
  PoolConfig, PoolOption, Started, Initial, new, require, configure, scaled, build, with_claims,
  with_workers, join_mode, started, join_initial, mode_fixed_size, mode_auto_scale,
}
use go_asynctasklib.Workerpool.Claims as Claims
use go_asynctasklib.Workerpool.Claims.{new_claims}
use go_asynctasklib.Workerpool.Config.{
  AutoScaleConfig, IsValid, scale_defaults, validate, scale_defaults-IsValid,
}
use go_asynctasklib.Workerpool.Ticks.{Scaler}
use go_asynctasklib.Workerpool.Ticks.Bounds.{IsBounded}
use go_asynctasklib.Workerpool.Worker.{Worker}
use go_asynctasklib.Base.Table
use go_asynctasklib.Base.{true, false}
use go_asynctasklib.Base.{
  map, length, ℕ, ◌≡◌, Option, ◌⊎◌, List, [], ◌≤◌, arith, refl, subst, ap, Bool-cases, ◌∙◌, inl,
  inr, if_both, false, sym, none, ◌<◌, Bool, some,
}
use go_asynctasklib.Base.Int.{
  pos, ℤ, pos_part, ◌<ℤ◌, ◌≤ℤ◌, eqb_ℤ, negsuc, eqb_ℤ_eq, leb_ℤ, neg_part,
}
use go_asynctasklib.Base.Errors.{Error, Result, ok, err}

below_ceiling : (a b : ℤ) → pos 0 <ℤ a → a ≤ℤ b → pos (pos_part a) ≤ℤ b
below_ceiling (pos m) b f l = l
below_ceiling (negsuc m) b f l = absurd (omega arith)

-- The defaults of the claims dispatcher keep the size of a valid auto-scale configuration.
sized :
    (cpus : ℕ) (c : Claims.ClaimsConfig) (a : AutoScaleConfig)
    → IsValid a
    → c.size ≡ a.max_size
    → (Claims.apply_defaults cpus c).size ≡ a.max_size
unfolding Claims.apply_defaults
sized cpus c a v e =
    if_both (λ x. x ≡ a.max_size) (leb_ℤ c.size (pos 0)) (pos cpus) c.size
      (λ f. absurd (ground (arith, f, ap pos_part e, ap neg_part e, v.floor, v.ordered))) (λ _. e)

not_auto : (m : ℤ) → eqb_ℤ m mode_auto_scale ≡ false → m ≡ mode_auto_scale → ⊥
not_auto m f e = ground (arith, f, ap pos_part e, ap neg_part e)

module _ {R J : Type 0} where
  -- The scaler goroutine's view of the pool, at its start.
  abbrev pub scaler : Started R J → Scaler
  scaler p = record {
    workers = map (λ (w : Worker J). w.id) p.initial.workers;
    joined_ids = p.initial.joined_ids;
    last_up = pos 0;
    last_down = pos 0;
  }

  abbrev pub IsScaling : Started R J → Type 0
  IsScaling p = IsValid p.cfg.auto_scale × IsBounded p.cfg.auto_scale (scaler p)

  pub record IsReady (p : Started R J) : Type 0 where
    pub created : length p.initial.workers ≡ pos_part p.cfg.claims.size
    pub distinct : Table.Distinct p.initial.joined_ids
    pub by_mode :
        ((p.cfg.mode ≡ mode_fixed_size)
          × (length p.initial.joined_ids ≡ pos_part p.cfg.claims.size))
        ⊎ ((p.cfg.mode ≡ mode_auto_scale) × IsScaling p)

module _ {R J : Type 0} (cpus : ℕ) (now : ℤ) (ctx : ℕ → Option Error) where
  started_ok :
      (c : PoolConfig R) (x : Result (Initial J)) (p : Started R J)
      → started cpus now ctx c x ≡ ok p
      → (r : Initial J) × (x ≡ ok r) × (record { cfg = c; initial = r } ≡ p)
  unfolding started
  started_ok c (err e) p h = absurd cc
  started_ok c (ok r) p h = (r, refl, ground (arith, h))

  -- The pool with what joinInitial leaves, for as many workers as asked for or more.
  joined_ok :
      (c : PoolConfig R) (d : Claims.Claims) (ws : List (Worker J)) (n : ℕ) (p : Started R J)
      → started cpus now ctx c (join_initial ctx now n ws d []) ≡ ok p
      → n ≤ length ws
      → Numbered 1 ws
      → (r : Initial J) × (record { cfg = c; initial = r } ≡ p)
        × (length r.workers ≡ length ws)
        × Table.Distinct r.joined_ids
        × (length r.joined_ids ≡ n)
  joined_ok c d ws n p e l named =
      let (r, f, s) = started_ok c _ p e in
      let (distinct, joined, kept) =
        join_initial-Grown ctx now n ws d [] 1 r f l named (none_joined 1) tt in
      (r, s, kept, distinct, omega (arith, joined))

  fixed-IsReady :
      (c : PoolConfig R) (d : Claims.Claims) (ws : List (Worker J)) (p : Started R J)
      → c.mode ≡ mode_fixed_size
      → started cpus now ctx c (join_initial ctx now (pos_part c.claims.size) ws d []) ≡ ok p
      → length ws ≡ pos_part c.claims.size
      → Numbered 1 ws
      → IsReady p
  fixed-IsReady c d ws p mode e size named =
      let (r, s, kept, distinct, joined) =
        joined_ok c d ws (pos_part c.claims.size) p e (omega (arith, size)) named in
      subst IsReady s
        (record { created = kept ∙ size; distinct = distinct; by_mode = inl (mode, joined) })

  auto-IsReady :
      (c : PoolConfig R) (d : Claims.Claims) (ws : List (Worker J)) (p : Started R J)
      → c.mode ≡ mode_auto_scale
      → started cpus now ctx c (join_initial ctx now (pos_part c.auto_scale.min_size) ws d [])
        ≡ ok p
      → length ws ≡ pos_part c.claims.size
      → Numbered 1 ws
      → IsValid c.auto_scale
      → c.claims.size ≡ c.auto_scale.max_size
      → IsReady p
  auto-IsReady c d ws p mode e size named valid top =
      let a = c.auto_scale in
      let high = below_ceiling a.min_size a.max_size valid.floor valid.ordered in
      let room : pos_part a.min_size ≤ length ws = omega (arith, high, size, ap pos_part top) in
      let (r, s, kept, distinct, joined) = joined_ok c d ws (pos_part a.min_size) p e room named in
      subst IsReady s (record {
        created = kept ∙ size;
        distinct = distinct;
        by_mode = inr (
          mode,
          (
            valid,
            record {
              distinct = distinct;
              floor = omega (arith, joined);
              ceiling = omega (arith, joined, high);
            },
          ),
        );
      })

  -- The rest of New behind the claims dispatcher, for workers that were created.
  join_mode-IsReady :
      (c : PoolConfig R) (d : Claims.Claims) (ws : List (Worker J)) (p : Started R J)
      → join_mode cpus now ctx c d ws ≡ ok p
      → length ws ≡ pos_part c.claims.size
      → Numbered 1 ws
      → (c.mode ≡ mode_auto_scale → IsValid c.auto_scale × (c.claims.size ≡ c.auto_scale.max_size))
      → IsReady p
  unfolding join_mode
  join_mode-IsReady c d ws p e size named scaling =
      elim (Bool-cases (eqb_ℤ c.mode mode_fixed_size)) [
        | inl f ↦
            fixed-IsReady c d ws p (eqb_ℤ_eq c.mode mode_fixed_size f) (ground (arith, f, e)) size
              named
        | inr f ↦ elim (Bool-cases (eqb_ℤ c.mode mode_auto_scale)) [
          | inl g ↦
              let mode = eqb_ℤ_eq c.mode mode_auto_scale g in
              auto-IsReady c d ws p mode (ground (arith, f, g, e)) size named (scaling mode).0
                (scaling mode).1
          | inr g ↦ absurd (ground (arith, f, g, e))
        ]
      ]

  build-IsReady :
      (c : PoolConfig R) (p : Started R J)
      → build cpus now ctx c ≡ ok p
      → (c.mode ≡ mode_auto_scale → IsValid c.auto_scale × (c.claims.size ≡ c.auto_scale.max_size))
      → IsReady p
  unfolding build with_claims with_workers new_claims
  build-IsReady c p e scaling =
      let cfg = Claims.apply_defaults cpus c.claims in
      let d : Claims.Claims = record { cfg = cfg; subscribers = [] } in
      let set : PoolConfig R = record c { claims = cfg } in
      let (ws, f, size, named) = create_workers-Numbered now 1 (pos_part cfg.size) in
      let g : join_mode cpus now ctx set d ws ≡ ok p =
        ap (with_workers cpus now ctx set d) (sym f) ∙ e in
      join_mode-IsReady set d ws p g size named
        (λ m. ((scaling m).0, sized cpus c.claims c.auto_scale (scaling m).0 (scaling m).1))

  scaled-IsReady :
      (c : PoolConfig R) (a : AutoScaleConfig) (v : Option Error) (p : Started R J)
      → scaled cpus now ctx c a v ≡ ok p
      → (v ≡ none → IsValid a)
      → IsReady p
  unfolding scaled
  scaled-IsReady c a (some x) p e h = absurd cc
  scaled-IsReady c a none p e h =
      build-IsReady (record c { auto_scale = a; claims = record c.claims { size = a.max_size } }) p
        e (λ _. (h refl, refl))

  configure-IsReady :
      (c : PoolConfig R) (p : Started R J) → 0 < cpus → configure cpus now ctx c ≡ ok p → IsReady p
  unfolding configure
  configure-IsReady c p l e =
      let a = scale_defaults cpus c.auto_scale in
      elim (Bool-cases (eqb_ℤ c.mode mode_auto_scale)) [
        | inl f ↦
            scaled-IsReady c a (validate a) p (ground (arith, f, e))
              (λ v. scale_defaults-IsValid cpus c.auto_scale l v)
        | inr f ↦ build-IsReady c p (ground (arith, f, e)) (λ m. absurd (not_auto c.mode f m))
      ]

  require-IsReady :
      (is_positive : R → Bool) (default_rate : R) (h : Bool) (c : Option (PoolConfig R))
      (p : Started R J)
      → 0 < cpus
      → require cpus now ctx is_positive default_rate h c ≡ ok p
      → IsReady p
  unfolding require
  require-IsReady is_positive default_rate false c p l e = absurd cc
  require-IsReady is_positive default_rate true none p l e = absurd cc
  require-IsReady is_positive default_rate true (some c) p l e = configure-IsReady _ p l e

  -- On a machine with a processor, whatever the options and wherever the context ends while the
  -- workers join, a pool that New returns has as many workers as its size; in the fixed mode all of
  -- them have joined, each once; in the auto-scale mode the configuration is valid and the workers
  -- that have joined lie within its bounds, as the autoscaler needs at its start.
  pub new-IsReady :
      (is_positive : R → Bool) (default_rate : R) (parent : Option (Option Error))
      (opts : List (PoolOption R)) (p : Started R J)
      → 0 < cpus
      → new cpus now ctx is_positive default_rate parent opts ≡ ok p
      → IsReady p
  unfolding new
  new-IsReady is_positive default_rate none opts p l e = absurd cc
  new-IsReady is_positive default_rate (some (some x)) opts p l e = absurd cc
  new-IsReady is_positive default_rate (some none) opts p l e =
      require-IsReady is_positive default_rate _ _ p l e
