-- ===== src/Workerpool/Ticks.antt =====
-- pkg/workerpool/scaler.go: runScaler with the workers that it joins and removes.
pub mod Bounds
use go_asynctasklib.Base.{
  ℕ, zero, suc, ◌+◌, ◌<◌, ◌≡◌, refl, sym, ◌∙◌, Bool, true, false, Option, none, some, List, [], ◌∷◌,
  map, length, get_elem?, if◌then◌else◌, Bool-cases, Option-cases, inl, inr, arith,
}
use go_asynctasklib.Base.Int.{ℤ, pos, pos_part, ◌+ℤ◌, ◌≤ℤ◌, ◌<ℤ◌, int_laws}
use go_asynctasklib.Base.Errors.{Error, pool, max_pool_size}
use go_asynctasklib.Base.Table
use go_asynctasklib.Workerpool.Config.{AutoScaleConfig, IsValid}
use go_asynctasklib.Workerpool.Scaler.{Snapshot, Decision, hold, up, down, decide}
use go_asynctasklib.Workerpool.Victim.{IdleCandidate, pick_victim}

-- `struct{}`, the values of the set.
pub data Present : Type 0 where
  present : Present

-- The pool as the scaler goroutine sees it: the IDs of the workers, in order, and of the joined
-- ones, with the goroutine's own two times.
pub record Scaler : Type 0 where
  pub workers : List ℕ
  pub joined_ids : List (ℕ × Present)
  pub last_up : ℤ
  pub last_down : ℤ

-- What one tick reads: the load, the time, the error of each call of worker.join in the tick, and
-- what a joined worker reports of itself.
pub record Tick : Type 0 where
  pub idle : ℤ
  pub backlog : ℤ
  pub now : ℤ
  pub joins : ℕ → Option Error
  pub reports : ℕ → IdleCandidate

-- The first worker that has not joined.
unfoldable pub spare : List ℕ → List (ℕ × Present) → Option ℕ
spare [] joined = none
spare (w ∷ ws) joined = elim (Table.lookup w joined) [ none ↦ some w | some _ ↦ spare ws joined ]

-- The first argument is what worker.join returns.
unfoldable pub join_one_idle : Option Error → Scaler → Scaler × Option Error
join_one_idle join s = elim (spare s.workers s.joined_ids) [
  | none ↦ (s, some (pool max_pool_size))
  | some w ↦ elim join [
    | some e ↦ (s, some e)
    | none ↦ (record s { joined_ids = Table.insert w present s.joined_ids }, none)
  ]
]

-- The loop of an up decision, over the calls that are left; `n` of them added a worker.
unfoldable pub join_batch : (ℕ → Option Error) → ℕ → ℕ → Scaler → Scaler × ℕ
join_batch joins zero n s = (s, n)
join_batch joins (suc step) n s =
    let (next, failed) = join_one_idle (joins n) s in
    elim failed [ none ↦ join_batch joins step (suc n) next | some _ ↦ (next, n) ]

unfoldable pub joined_candidates : List ℕ → List (ℕ × Present) → List ℕ
joined_candidates [] joined = []
joined_candidates (w ∷ ws) joined =
    let rest = joined_candidates ws joined in
    elim (Table.lookup w joined) [ none ↦ rest | some _ ↦ w ∷ rest ]

-- The worker leaves the set whatever worker.leave returns.
unfoldable pub leave_one : ℕ → Scaler → Scaler
leave_one w s = record s { joined_ids = Table.delete w s.joined_ids }

unfoldable pub snapshot : Tick → Scaler → Snapshot
snapshot t s = record {
  joined = pos (length s.joined_ids);
  idle = t.idle;
  backlog = t.backlog;
  now = t.now;
  last_up = s.last_up;
  last_down = s.last_down;
}

-- `if added > 0`, behind the batch.
unfoldable pub stamp_up : ℤ → Scaler × ℕ → Scaler
stamp_up now (s, zero) = s
stamp_up now (s, suc added) = record s { last_up = now }

unfoldable pub scale_up : Tick → ℕ → Scaler → Scaler
scale_up t step s = stamp_up t.now (join_batch t.joins step 0 s)

-- `none` is the panic of an index out of range.
unfoldable pub scale_down : AutoScaleConfig → Tick → Scaler → Option Scaler
scale_down cfg t s =
    let workers = joined_candidates s.workers s.joined_ids in
    elim (pick_victim (map t.reports workers) t.now cfg.scale_down_idle_period) [
      | none ↦ some s
      | some i ↦ elim (get_elem? workers i) [
        | none ↦ none
        | some w ↦ some (record (leave_one w s) { last_down = t.now })
      ]
    ]

-- The switch on the decision.
unfoldable pub apply_decision : AutoScaleConfig → Tick → Scaler → Decision × ℤ → Option Scaler
apply_decision cfg t s (hold, step) = some s
apply_decision cfg t s (up, step) = some (scale_up t (pos_part step) s)
apply_decision cfg t s (down, step) = scale_down cfg t s

unfoldable pub tick : AutoScaleConfig → Tick → Scaler → Option Scaler
tick cfg t s = apply_decision cfg t s (decide (snapshot t s) cfg)

unfoldable pub run_scaler : AutoScaleConfig → List Tick → Scaler → Option Scaler
run_scaler cfg [] s = some s
run_scaler cfg (t ∷ ts) s = elim (tick cfg t s) [ none ↦ none | some s2 ↦ run_scaler cfg ts s2 ]
