-- ===== src/Taskqueue/Queue/Sweeping.antt =====
-- queue.go: one tick of the reaper gives back every lease that has expired.
use go_asynctasklib.Base.{
  ◌∷◌, [], true, false, none, some, ℕ, ◌≡◌, inl, inr, List, Option, arith, Bool-cases, ◌≢◌, refl,
  Option-cases, subst, ◌⊎◌, ◌==◌, ap, ◌∙◌, ==_iff,
}
use go_asynctasklib.Base.Int.{ℤ, pos, leb_ℤ, ◌≤ℤ◌, ◌<ℤ◌}
use go_asynctasklib.Base.Errors.{Error, queue, lease_expired, lease_not_found}
use go_asynctasklib.Taskqueue.Types.{Lease}
use go_asynctasklib.Taskqueue.Backend.{Backend, View, Implements, Holding, AllDue, Listed, update}
use go_asynctasklib.Taskqueue.DeadLetter.{DeadLetter}
use go_asynctasklib.Taskqueue.DeadLetter.Contract.{DeadView, Keeps}
use go_asynctasklib.Taskqueue.Queue.{
  Queue, route, sweep_one, sweep_all, sweep, on_lease_expired, on_retry,
}
use go_asynctasklib.Taskqueue.Queue.Policy.{route_retries, route_buries, route_stale}
use go_asynctasklib.Taskqueue.Queue.Presence.{Where, IsCurrent}
use go_asynctasklib.Taskqueue.Queue.Effects.{Sound}
use go_asynctasklib.Taskqueue.Queue.Calls.{sweep_one-Sound}
use mathlib.Core.Logic.{∥∥₁_elim}

module _ (b : Backend) (v : View b) (d : DeadLetter) (w : DeadView d) (good : Implements b v)
    (kept : Keeps d w) where
  -- What is held behind a call that drops or requeues the lease with a token.
  abbrev Drops : ℕ → Queue b d → Queue b d → Type 0
  Drops k q r = (j : ℕ) → v.held r.backend j ≡ update (v.held q.backend) k none j

  nothing_held : (q : Queue b d) (k : ℕ) → v.held q.backend k ≡ none → Drops k q q
  nothing_held q k e j = ground (arith, e)

  route_drops :
      (now : ℤ) (l : Lease) (reason : Option Error) (q : Queue b d)
      → v.Valid q.backend
      → w.Valid q.dead
      → (x : Queue b d × Option Error) × (route b d none none now l reason q ≡ some x)
        × Drops l.token q x.0
  unfolding route
  route_drops now l reason q valid stored =
      let (y, added, vy, a) = kept.add_stores now l.task reason q.dead stored in
      elim (Bool-cases (leb_ℤ q.max_attempts (pos l.attempt))) [
        | inl above ↦ elim (Option-cases (v.held q.backend l.token)) [
          | inl lost ↦ (
            _,
            route_stale b v good d now l reason q y (ground arith) lost added,
            nothing_held q l.token lost,
          )
          | inr (h, e) ↦
              let (t, r, m) =
                route_buries b v good d now l reason q h y valid (ground arith) e added in
              (_, r, m.holds)
        ]
        | inr below ↦ elim (Option-cases (v.held q.backend l.token)) [
          | inl lost ↦ (
            (record q { log = on_retry l.task l.attempt ∷ q.log }, some (queue lease_not_found)),
            ground (arith, good.nack_missing q.backend l.token true lost),
            nothing_held q l.token lost,
          )
          | inr (h, e) ↦
              let (t, r, m) = route_retries b v good d now l reason q h valid (ground arith) e in
              (_, r, m.holds)
        ]
      ]

  -- One expired lease, with both of its effects.
  sweep_one_drops :
      (now : ℤ) (l : Lease) (q : Queue b d)
      → v.Valid q.backend
      → w.Valid q.dead
      → IsCurrent b v d w q.backend l
      → (x : Queue b d) × (sweep_one b d none none now l q ≡ some x)
        × Sound b v d w none q x
        × Drops l.token q x
  unfolding sweep_one
  sweep_one_drops now l q valid stored c =
      let (x, e, s) = sweep_one-Sound b v d w good kept q valid stored now l c in
      let (y, f, h) =
        route_drops now l (some (queue lease_expired))
          (record q { log = on_lease_expired l ∷ q.log }) valid stored in
      let same : y.0 ≡ x = ground (arith, e, f) in (x, e, s, subst (Drops l.token q) same h)

  -- What a sweep of the leases `ls` makes of the queue.
  record Swept (ls : List Lease) (q r : Queue b d) : Type 0 where
    valid : v.Valid r.backend
    stored : w.Valid r.dead
    gone : (k : ℕ) → Listed k ls → v.held r.backend k ≡ none
    less : (k : ℕ) → (v.held r.backend k ≡ v.held q.backend k) ⊎ (v.held r.backend k ≡ none)
    others : (k : ℕ) → (Listed k ls → ⊥) → v.held r.backend k ≡ v.held q.backend k
    places : (id : ℕ) → Where b v d w q.backend q.dead id → ∥ Where b v d w r.backend r.dead id ∥₁

  Currents : Queue b d → List Lease → Type 0
  Currents q [] = Unit {0}
  Currents q (l ∷ ls) = IsCurrent b v d w q.backend l × Currents q ls

  Currents-after :
      (q r : Queue b d) (ls : List Lease) → Sound b v d w none q r → Currents q ls → Currents r ls
  unfolding Currents
  Currents-after q r [] s c = c
  Currents-after q r (l ∷ ls) s (c, cs) = (s.current l c, Currents-after q r ls s cs)

  none_id : (id : ℕ) → none ≢ some id
  none_id id e = ground (arith, e)

  Swept-cons :
      (l : Lease) (ls : List Lease) (q x r : Queue b d)
      → Sound b v d w none q x
      → Drops l.token q x
      → Swept ls x r
      → Swept (l ∷ ls) q r
  Swept-cons l ls q x r s h t = record {
    valid = t.valid;
    stored = t.stored;
    gone = λ k m. elim m [
      | inl e ↦ elim (t.less k) [ inl f ↦ f ∙ dropped k e | inr f ↦ f ]
      | inr n ↦ t.gone k n
    ];
    less = λ k. elim (t.less k) [
      | inl f ↦ elim (Bool-cases (l.token == k)) [
        | inl e ↦ inr (f ∙ dropped k ((==_iff l.token k).0 e))
        | inr e ↦ inl (f ∙ untouched k e)
      ]
      | inr f ↦ inr f
    ];
    others = λ k n. elim (Bool-cases (l.token == k)) [
      | inl e ↦ absurd (n (inl ((==_iff l.token k).0 e)))
      | inr e ↦ t.others k (λ m. n (inr m)) ∙ untouched k e
    ];
    places = λ id p. ∥∥₁_elim (s.places id (none_id id) p) squash₁ (λ y. t.places id y);
  }
    where
      dropped : (k : ℕ) → l.token ≡ k → v.held x.backend k ≡ none
      dropped k e = ground (arith, e, h k)

      untouched : (k : ℕ) → (l.token == k) ≡ false → v.held x.backend k ≡ v.held q.backend k
      untouched k e = ground (arith, e, h k)

  sweep_all_sweeps :
      (now : ℤ) (ls : List Lease) (q : Queue b d)
      → v.Valid q.backend
      → w.Valid q.dead
      → Currents q ls
      → (r : Queue b d) × (sweep_all b d none now ls q ≡ some r) × Swept ls q r
  unfolding sweep_all Currents
  sweep_all_sweeps now [] q valid stored c = (
    q,
    refl,
    record {
      valid = valid;
      stored = stored;
      gone = λ k e. absurd e;
      less = λ k. inl refl;
      others = λ k n. refl;
      places = λ id p. ∣ p ∣₁;
    },
  )
  sweep_all_sweeps now (l ∷ ls) q valid stored (c, cs) =
      let (x, e, s, h) = sweep_one_drops now l q valid stored c in
      let (r, f, t) = sweep_all_sweeps now ls x s.valid s.stored (Currents-after q x ls s cs) in
      (r, rw e f, Swept-cons l ls q x r s h t)

  due-Currents :
      (q : Queue b d) (now : ℤ) (ls : List Lease) → AllDue b v q.backend now ls → Currents q ls
  unfolding Currents
  due-Currents q now [] a = tt
  due-Currents q now (l ∷ ls) ((h, f, g, _), a) =
      (λ i j. ground (arith, f, g, j), due-Currents q now ls a)

  -- A token among the leases that are due is held with a deadline that is over.
  due_deadline :
      (q : Queue b d) (now : ℤ) (ls : List Lease) (k : ℕ) (h : Holding)
      → AllDue b v q.backend now ls
      → v.held q.backend k ≡ some h
      → now <ℤ h.deadline
      → Listed k ls
      → ⊥
  due_deadline q now [] k h a e l m = m
  due_deadline q now (x ∷ ls) k h ((i, f, g, y), a) e l (inl m) =
      ground (arith, ap (v.held q.backend) m, f, e, y, l)
  due_deadline q now (x ∷ ls) k h (_, a) e l (inr m) = due_deadline q now ls k h a e l m

  -- What one tick makes of the queue.
  pub record IsSwept (now : ℤ) (q r : Queue b d) : Type 0 where
    pub valid : v.Valid r.backend
    pub stored : w.Valid r.dead
    pub places :
        (id : ℕ) → Where b v d w q.backend q.dead id → ∥ Where b v d w r.backend r.dead id ∥₁
    pub none_stays : (k : ℕ) → v.held q.backend k ≡ none → v.held r.backend k ≡ none
    pub due_gone :
        (k : ℕ) (h : Holding)
        → v.held q.backend k ≡ some h
        → h.deadline ≤ℤ now
        → v.held r.backend k ≡ none
    pub early_stays :
        (k : ℕ) (h : Holding)
        → v.held q.backend k ≡ some h
        → now <ℤ h.deadline
        → v.held r.backend k ≡ some h

  pub sweep-IsSwept :
      (now : ℤ) (q : Queue b d)
      → v.Valid q.backend
      → w.Valid q.dead
      → (r : Queue b d) × (sweep b d none now q ≡ some r) × IsSwept now q r
  unfolding sweep
  sweep-IsSwept now q valid stored =
      let (ls, reaped, a) = good.reap_reports q.backend now valid in
      let (r, f, t) = sweep_all_sweeps now ls q valid stored (due-Currents q now ls a) in
      (
        r,
        ground (arith, reaped, f),
        record {
          valid = t.valid;
          stored = t.stored;
          places = t.places;
          none_stays = λ k e. elim (t.less k) [ inl g ↦ g ∙ e | inr g ↦ g ];
          due_gone = λ k h e over.
              t.gone k (good.reap_misses_none q.backend now k h ls valid e over reaped);
          early_stays = λ k h e later. t.others k (due_deadline q now ls k h a e later) ∙ e;
        },
      )
