-- ===== src/Taskqueue/Queue/Reaper.antt =====
-- queue.go: the reaper, which sweeps at each tick until its context ends.
use go_asynctasklib.Base.{
  ◌∷◌, [], none, some, ℕ, ◌≡◌, inl, inr, List, Option, ◌>>=◌, ◌⊎◌, Bool-cases, arith, refl,
}
use go_asynctasklib.Base.Int.{ℤ, ltb_ℤ, ◌≤ℤ◌, ◌<ℤ◌}
use go_asynctasklib.Taskqueue.Backend.{Backend, View, Implements, Holding}
use go_asynctasklib.Taskqueue.DeadLetter.{DeadLetter}
use go_asynctasklib.Taskqueue.DeadLetter.Contract.{DeadView, Keeps}
use go_asynctasklib.Taskqueue.Queue.{Queue, sweep}
use go_asynctasklib.Taskqueue.Queue.Presence.{Where}
use go_asynctasklib.Taskqueue.Queue.Sweeping.{IsSwept, sweep-IsSwept}
use mathlib.Core.Logic.{∥∥₁_elim}

-- The ticks by their times, up to the end of the context, with nobody else at work.
unfoldable pub reaper : (b : Backend) (d : DeadLetter) → List ℤ → Queue b d → Option (Queue b d)
reaper b d [] q = some q
reaper b d (now ∷ ticks) q = sweep b d none now q >>= reaper b d ticks

-- One of the ticks is at the deadline or behind it, or all are before it.
abbrev pub Passes : ℤ → List ℤ → Type 0
Passes deadline [] = ⊥
Passes deadline (now ∷ ticks) = (deadline ≤ℤ now) ⊎ Passes deadline ticks

abbrev pub Awaits : ℤ → List ℤ → Type 0
Awaits deadline [] = Unit {0}
Awaits deadline (now ∷ ticks) = (now <ℤ deadline) × Awaits deadline ticks

module _ (b : Backend) (v : View b) (d : DeadLetter) (w : DeadView d) (good : Implements b v)
    (kept : Keeps d w) where
  -- A run of the reaper from `q` to `r`.
  record Reaped (ticks : List ℤ) (q r : Queue b d) : Type 0 where
    none_stays : (k : ℕ) → v.held q.backend k ≡ none → v.held r.backend k ≡ none
    answers :
        (k : ℕ) (h : Holding)
        → v.held q.backend k ≡ some h
        → (Passes h.deadline ticks × (v.held r.backend k ≡ none))
          ⊎ (Awaits h.deadline ticks × (v.held r.backend k ≡ some h))
    places : (id : ℕ) → Where b v d w q.backend q.dead id → ∥ Where b v d w r.backend r.dead id ∥₁

  Reaped-first :
      (now : ℤ) (ticks : List ℤ) (q x r : Queue b d)
      → IsSwept b v d w good kept now q x
      → Reaped ticks x r
      → Reaped (now ∷ ticks) q r
  Reaped-first now ticks q x r s t = record {
    none_stays = λ k e. t.none_stays k (s.none_stays k e);
    answers = λ k h e. elim (Bool-cases (ltb_ℤ now h.deadline)) [
      | inl early ↦
          let later : now <ℤ h.deadline = ground (arith, early) in
          elim (t.answers k h (s.early_stays k h e later)) [
            | inl (p, f) ↦ inl (inr p, f)
            | inr (p, f) ↦ inr ((later, p), f)
          ]
      | inr late ↦
          let over : h.deadline ≤ℤ now = ground (arith, late) in
          inl (inl over, t.none_stays k (s.due_gone k h e over))
    ];
    places = λ id p. ∥∥₁_elim (s.places id p) squash₁ (λ y. t.places id y);
  }

  reaper-Reaped :
      (ticks : List ℤ) (q : Queue b d)
      → v.Valid q.backend
      → w.Valid q.dead
      → (r : Queue b d) × (reaper b d ticks q ≡ some r) × Reaped ticks q r
  unfolding reaper
  reaper-Reaped [] q valid stored = (
    q,
    refl,
    record { none_stays = λ k e. e; answers = λ k h e. inr (tt, e); places = λ id p. ∣ p ∣₁ },
  )
  reaper-Reaped (now ∷ ticks) q valid stored =
      let (x, e, s) = sweep-IsSwept b v d w good kept now q valid stored in
      let (r, f, t) = reaper-Reaped ticks x s.valid s.stored in
      (r, rw e f, Reaped-first now ticks q x r s t)

  -- The reaper under a live context, over any backend and dead letters that keep their contracts and
  -- with nobody else at work: it returns from its ticks, and behind them a lease is gone exactly if
  -- one of the ticks was at its deadline or behind it, and is held as before otherwise; and its task
  -- is waiting, leased or among the dead letters.
  pub reaper_clears :
      (ticks : List ℤ) (q : Queue b d) (k : ℕ) (h : Holding)
      → v.Valid q.backend
      → w.Valid q.dead
      → v.held q.backend k ≡ some h
      → (r : Queue b d) × (reaper b d ticks q ≡ some r)
        × ((Passes h.deadline ticks × (v.held r.backend k ≡ none))
            ⊎ (Awaits h.deadline ticks × (v.held r.backend k ≡ some h)))
        × ∥ Where b v d w r.backend r.dead h.job.task.id ∥₁
  reaper_clears ticks q k h valid stored e =
      let (r, f, t) = reaper-Reaped ticks q valid stored in
      (r, f, t.answers k h e, t.places h.job.task.id (Where.leased k h e refl))
