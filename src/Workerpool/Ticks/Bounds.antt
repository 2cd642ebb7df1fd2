-- ===== src/Workerpool/Ticks/Bounds.antt =====
-- The number of joined workers stays between the floor and the ceiling.
use mathlib.Core.Option.{some-injective}
use go_asynctasklib.Base.{
  ℕ, zero, suc, ◌+◌, ◌≤◌, ◌≡◌, refl, ◌∙◌, Option, none, some, List, [], ◌∷◌, map, length, get_elem?,
  Option-cases, inl, inr, arith, subst, ap,
}
use go_asynctasklib.Base.Int.{ℤ, pos, ◌≤ℤ◌, +ℤ_parts, negsuc}
use go_asynctasklib.Base.Errors.{Error}
use go_asynctasklib.Base.Table
use go_asynctasklib.Workerpool.Config.{AutoScaleConfig, IsValid}
use go_asynctasklib.Workerpool.Scaler.{
  Decision, hold, up, down, decide, Justified, decide-Justified,
}
use go_asynctasklib.Workerpool.Victim.{IdleCandidate, pick_victim, pick_victim_oldest, Picks}
use go_asynctasklib.Workerpool.Ticks.{
  Scaler, Tick, spare, join_one_idle, join_batch, joined_candidates, leave_one, snapshot, scale_up,
  scale_down, tick, run_scaler, apply_decision, stamp_up, Present, present, Present, present,
}

pub record IsBounded (cfg : AutoScaleConfig) (s : Scaler) : Type 0 where
  pub distinct : Table.Distinct s.joined_ids
  pub floor : cfg.min_size ≤ℤ pos (length s.joined_ids)
  pub ceiling : pos (length s.joined_ids) ≤ℤ cfg.max_size

-- The bounds on a set that may have `k` workers more than another.
abbrev Grows : ℕ → Scaler → Scaler → Type 0
Grows k s u =
    Table.Distinct u.joined_ids
    × (length s.joined_ids ≤ length u.joined_ids)
    × (length u.joined_ids ≤ length s.joined_ids + k)

spare_unjoined :
    (ws : List ℕ) (joined : List (ℕ × Present)) (w : ℕ)
    → spare ws joined ≡ some w
    → Table.lookup w joined ≡ none
unfolding spare
spare_unjoined [] joined w e = absurd (ground arith)
spare_unjoined (x ∷ ws) joined w e = elim (Option-cases (Table.lookup x joined)) [
  | inl f ↦ subst (λ v. Table.lookup v joined ≡ none) (ground (arith, f, e)) f
  | inr (present, f) ↦ spare_unjoined ws joined w (ground (arith, f, e))
]

candidates_step :
    (x : ℕ) (ws : List ℕ) (joined : List (ℕ × Present)) (o : Option Present)
    → Table.lookup x joined ≡ o
    → joined_candidates (x ∷ ws) joined
      ≡ (elim o [ none ↦ joined_candidates ws joined | some _ ↦ x ∷ joined_candidates ws joined ])
unfolding joined_candidates
candidates_step x ws joined o f = rw (joined_candidates, f) refl

candidate_at :
    (x : ℕ) (ids : List ℕ) (joined : List (ℕ × Present)) (i w : ℕ)
    → Table.lookup x joined ≡ some present
    → ((j : ℕ) → get_elem? ids j ≡ some w → Table.lookup w joined ≡ some present)
    → get_elem? (x ∷ ids) i ≡ some w
    → Table.lookup w joined ≡ some present
candidate_at x ids joined zero w f rest e =
    subst (λ v. Table.lookup v joined ≡ some present) (some-injective _ _ e) f
candidate_at x ids joined (suc i) w f rest e = rest i e

joined_candidates-joined :
    (ws : List ℕ) (joined : List (ℕ × Present)) (i w : ℕ)
    → get_elem? (joined_candidates ws joined) i ≡ some w
    → Table.lookup w joined ≡ some present
unfolding joined_candidates
joined_candidates-joined [] joined i w e = absurd (ground arith)
joined_candidates-joined (x ∷ ws) joined i w e = elim (Option-cases (Table.lookup x joined)) [
  | inl f ↦
      joined_candidates-joined ws joined i w
        (subst (λ l. get_elem? l i ≡ some w) (candidates_step x ws joined none f) e)
  | inr (present, f) ↦
      candidate_at x (joined_candidates ws joined) joined i w f
        (λ j. joined_candidates-joined ws joined j w)
        (subst (λ l. get_elem? l i ≡ some w) (candidates_step x ws joined (some present) f) e)
]

insert-Grows :
    (w : ℕ) (s : Scaler)
    → Table.Distinct s.joined_ids
    → Table.lookup w s.joined_ids ≡ none
    → Grows 1 s (record s { joined_ids = Table.insert w present s.joined_ids })
insert-Grows w s h e =
    let size : length (Table.insert w present s.joined_ids) ≡ suc (length s.joined_ids) =
      Table.length-insert w present s.joined_ids
      ∙ ap
          (λ o. elim o as (λ _. ℕ) [
            | none ↦ suc (length s.joined_ids)
            | some _ ↦ length s.joined_ids
          ])
          e in
    (Table.insert-Distinct w present s.joined_ids h, omega arith, omega arith)

join_one_idle-Grows :
    (join : Option Error) (s : Scaler)
    → Table.Distinct s.joined_ids
    → Grows 1 s ((join_one_idle join s).0)
unfolding join_one_idle
join_one_idle-Grows join s h = elim (Option-cases (spare s.workers s.joined_ids)) [
  | inl e ↦ rw (join_one_idle, e) (h, omega arith, omega arith)
  | inr (w, e) ↦ elim (Option-cases join) [
    | inl f ↦
        rw (join_one_idle, e, f) (insert-Grows w s h (spare_unjoined s.workers s.joined_ids w e))
    | inr (_, f) ↦ rw (join_one_idle, e, f) (h, omega arith, omega arith)
  ]
]

-- A call of the loop, given what the later calls do.
batch_step :
    (joins : ℕ → Option Error) (k n : ℕ) (s : Scaler) (r : Scaler × Option Error)
    → Grows 1 s r.0
    → ((u : Scaler) → Table.Distinct u.joined_ids → Grows k u ((join_batch joins k (suc n) u).0))
    → Grows (suc k) s (
        (elim r.1 as (λ _. Scaler × ℕ) [
          | none ↦ join_batch joins k (suc n) r.0
          | some _ ↦ (r.0, n)
        ]).0)
batch_step joins k n s (u, none) (h, low, high) later =
    let (g, l, m) = later u h in (g, omega arith, omega arith)
batch_step joins k n s (u, some e) (h, low, high) later = (h, low, omega arith)

join_batch-Grows :
    (joins : ℕ → Option Error) (k n : ℕ) (s : Scaler)
    → Table.Distinct s.joined_ids
    → Grows k s ((join_batch joins k n s).0)
unfolding join_batch
join_batch-Grows joins zero n s h = (h, omega arith, omega arith)
join_batch-Grows joins (suc k) n s h =
    batch_step joins k n s (join_one_idle (joins n) s) (join_one_idle-Grows (joins n) s h)
      (λ u. join_batch-Grows joins k (suc n) u)

stamp_up-Grows :
    (now : ℤ) (k : ℕ) (s : Scaler) (r : Scaler × ℕ) → Grows k s r.0 → Grows k s (stamp_up now r)
unfolding stamp_up
stamp_up-Grows now k s (u, zero) h = h
stamp_up-Grows now k s (u, suc n) h = h

read_map :
    (f : ℕ → IdleCandidate) (xs : List ℕ) (i : ℕ) (c : IdleCandidate)
    → get_elem? (map f xs) i ≡ some c
    → (w : ℕ) × (get_elem? xs i ≡ some w)
read_map f [] i c e = absurd (ground arith)
read_map f (x ∷ xs) zero c e = (x, refl)
read_map f (x ∷ xs) (suc i) c e = read_map f xs i c e

-- What a removal does to the number of joined workers.
abbrev Shrinks : Scaler → Scaler → Type 0
Shrinks s u =
    Table.Distinct u.joined_ids
    × (length u.joined_ids ≤ length s.joined_ids)
    × (length s.joined_ids ≤ suc (length u.joined_ids))

leave_one-Shrinks :
    (w : ℕ) (s : Scaler)
    → Table.Distinct s.joined_ids
    → Table.lookup w s.joined_ids ≡ some present
    → Shrinks s (leave_one w s)
unfolding leave_one
leave_one-Shrinks w s h e =
    let size = Table.length-delete w present s.joined_ids h e in
    (Table.delete-Distinct w s.joined_ids h, omega arith, omega arith)

scale_down-Shrinks :
    (cfg : AutoScaleConfig) (t : Tick) (s : Scaler)
    → Table.Distinct s.joined_ids
    → (u : Scaler) × (scale_down cfg t s ≡ some u) × Shrinks s u
unfolding scale_down
scale_down-Shrinks cfg t s h =
    let ids = joined_candidates s.workers s.joined_ids in
    let reports = map t.reports ids in
    let picked = pick_victim_oldest reports t.now cfg.scale_down_idle_period in
    elim (Option-cases (pick_victim reports t.now cfg.scale_down_idle_period)) [
      | inl e ↦ (s, rw (scale_down, e) refl, (h, omega arith, omega arith))
      | inr (i, e) ↦
          let (c, f, _, _) : Picks reports t.now cfg.scale_down_idle_period (length reports)
              (some i) =
            subst (Picks reports t.now cfg.scale_down_idle_period (length reports)) e picked in
          let (w, g) = read_map t.reports ids i c f in
          (
            record (leave_one w s) { last_down = t.now },
            rw (scale_down, e, g) refl,
            leave_one-Shrinks w s h (joined_candidates-joined s.workers s.joined_ids i w g),
          )
    ]

apply_decision-IsBounded :
    (cfg : AutoScaleConfig) (t : Tick) (s : Scaler) (d : Decision × ℤ)
    → IsBounded cfg s
    → Justified (snapshot t s) cfg d
    → (u : Scaler) × (apply_decision cfg t s d ≡ some u) × IsBounded cfg u
unfolding apply_decision snapshot scale_up
apply_decision-IsBounded cfg t s (hold, n) b j = (s, refl, b)
apply_decision-IsBounded cfg t s (up, negsuc n) b (positive, _, _, _, _, _) = absurd (omega arith)
apply_decision-IsBounded cfg t s (up, pos n) b (_, _, room, _, _, _) =
    let batch = join_batch t.joins n 0 s in
    let (g, low, high) =
      stamp_up-Grows t.now n s batch (join_batch-Grows t.joins n 0 s b.distinct) in
    let sum = +ℤ_parts (pos (length s.joined_ids)) (pos n) in
    (
      stamp_up t.now batch,
      refl,
      record {
        distinct = g;
        floor = omega (arith, b.floor);
        ceiling = omega (arith, room, sum, high);
      },
    )
apply_decision-IsBounded cfg t s (down, n) b (_, above, _, _, _) =
    let (u, e, (g, low, high)) = scale_down-Shrinks cfg t s b.distinct in
    (
      u,
      e,
      record { distinct = g; floor = omega (arith, above); ceiling = omega (arith, b.ceiling) },
    )

-- Over any sequence of ticks, whatever load they read, whatever the workers report and whichever
-- joins fail, a scaler with a valid configuration never panics and keeps the number of joined
-- workers from MinSize to MaxSize if it starts there.
pub run_scaler-IsBounded :
    (cfg : AutoScaleConfig) (ts : List Tick) (s : Scaler)
    → IsValid cfg
    → IsBounded cfg s
    → (u : Scaler) × (run_scaler cfg ts s ≡ some u) × IsBounded cfg u
unfolding run_scaler tick
run_scaler-IsBounded cfg [] s v b = (s, refl, b)
run_scaler-IsBounded cfg (t ∷ ts) s v b =
    let (u, e, c) =
      apply_decision-IsBounded cfg t s (decide (snapshot t s) cfg) b
        (decide-Justified (snapshot t s) cfg v) in
    let (w, f, d) = run_scaler-IsBounded cfg ts u v c in (w, rw (run_scaler, e) f, d)
