-- ===== src/Taskqueue/Queue/Feeds.antt =====
-- The two calls that feed tasks to consumers, Dequeue and Redrive, are sound.
use go_asynctasklib.Taskqueue.Backend.{Backend, View, Implements, Claimed}
use go_asynctasklib.Taskqueue.Queue.Consume.{Round, dequeue, redrive, find_dead}
use go_asynctasklib.Base.{
  ℕ, List, ◌≡◌, Option, none, ◌∷◌, some, arith, [], Bool-cases, false, inl, inr, Option-cases, ◌≢◌,
  sym, ◌∙◌, ◌==◌, subst, refl,
}
use go_asynctasklib.Taskqueue.DeadLetter.{DeadLetter}
use go_asynctasklib.Taskqueue.DeadLetter.Contract.{DeadView, Keeps, find_task}
use go_asynctasklib.Taskqueue.Types.{DeadTask, Lease}
use go_asynctasklib.Taskqueue.Queue.{Queue, Claim, on_enqueue, on_claim}
use go_asynctasklib.Base.Int.{ℤ}
use go_asynctasklib.Base.Errors.{Error, ok, queue, queue_closed, lease_not_found}
use go_asynctasklib.Taskqueue.Queue.Effects.{Sound, unchanged}
use go_asynctasklib.Taskqueue.Queue.Presence.{IsCurrent, Where, claim_keeps, grow_keeps}
use go_asynctasklib.Taskqueue.Queue.Dequeue.{no_job-or_job, dequeue_delivers}

pub find_dead-task : (id : ℕ) (xs : List DeadTask) → find_dead id xs ≡ find_task id xs
unfolding find_dead
find_dead-task id [] = refl
find_dead-task id (x ∷ xs) = ground (arith, find_dead-task id xs)

module _ (b : Backend) (v : View b) (d : DeadLetter) (w : DeadView d) (good : Implements b v)
    (kept : Keeps d w) (q : Queue b d) (valid : v.Valid q.backend) (stored : w.Valid q.dead) where
  -- What a delivery does: the lease is current, and no other lease is known less well.
  pub record Delivered (k : ℕ) (l : Lease) (r : Queue b d) : Type 0 where
    pub is_valid : v.Valid r.backend
    pub is_stored : w.Valid r.dead
    pub known : IsCurrent b v d w r.backend l
    pub token : l.token ≡ k
    pub current :
        (m : Lease) → m.token ≢ k → IsCurrent b v d w q.backend m → IsCurrent b v d w r.backend m
    pub places :
        (id : ℕ) → Where b v d w q.backend q.dead id → ∥ Where b v d w r.backend r.dead id ∥₁

  pub dequeue_sound :
      (now timeout : ℤ) (r : Round b d) (c : Claim b d) (q' : Queue b d)
      → r.ctx ≡ none
      → r.claim_ctx ≡ none
      → v.held q.backend r.token ≡ none
      → dequeue b d now timeout (r ∷ []) q ≡ some (q', ok c)
      → Delivered r.token c.lease q'
  dequeue_sound now timeout r c q' head ctx fresh e =
      let open_queue : q.closed ≡ false = unfold dequeue in ground arith in
      elim (no_job-or_job (v.ready q.backend)) [
        | inl idle ↦
            let none_left =
              good.claim_empty q.backend r.token r.claim_time q.visibility valid idle in
            absurd (unfold dequeue in ground (arith, none_left))
        | inr busy ↦
            let (t, l, f, g) =
              dequeue_delivers b v good d now timeout r [] q valid open_queue head ctx busy in
            let r' = record q { backend = t; log = on_claim l ∷ q.log } in
            let same : r' ≡ q' = ground (arith, e, f) in
            let lease : l ≡ c.lease = ground (arith, e, f) in
            subst (Delivered r.token c.lease) same
              (subst (λ m. Delivered r.token m r') lease (from t l g))
      ]
    where
      from :
          (t : b.State) (l : Lease)
          → Claimed b v q.backend t r.token r.claim_time q.visibility l
          → Delivered r.token l (record q { backend = t; log = on_claim l ∷ q.log })
      from t l g = record {
        is_valid = g.valid;
        is_stored = stored;
        known = λ h i. ground (arith, g.holds l.token, g.lease, i);
        token = ground (arith, g.lease);
        current = λ m n k h i. k h (ground (arith, g.holds m.token, i, n));
        places = λ id o.
            claim_keeps b v d w good kept q.backend t q.dead r.token r.claim_time q.visibility l id
              fresh g o;
      }

  pub redrive-Sound :
      (id : ℕ)
      → (x : Queue b d × Option Error) × (redrive b d none none none none id q ≡ some x)
        × Sound b v d w none q x.0
  unfolding redrive
  redrive-Sound id = elim (Bool-cases q.closed) [
    | inl shut ↦ (
      (q, some (queue queue_closed)),
      ground arith,
      unchanged b v d w none q q valid stored refl refl,
    )
    | inr live ↦
        let (xs, listed, finds) = kept.list_finds q.dead stored in
        elim (Option-cases (w.dead q.dead id)) [
          | inl missing ↦ (
            (q, some (queue lease_not_found)),
            ground (arith, listed, finds id, find_dead-task id xs),
            unchanged b v d w none q q valid stored refl refl,
          )
          | inr (t, found) ↦
              let (s, e, vs, p, h) = good.enqueue_adds q.backend t valid in
              let (y, f, vy, a) = kept.remove_deletes q.dead id stored in
              let own = kept.dead_id q.dead id t stored found in
              (
                (record q { backend = s; dead = y; log = on_enqueue t ∷ q.log }, none),
                ground (arith, listed, finds id, find_dead-task id xs, e, f),
                record {
                  valid = vs;
                  stored = vy;
                  current = λ l c i g. c i (sym (h l.token) ∙ g);
                  places = λ j n o.
                      ∣ grow_keeps b v d w good kept q.backend s q.dead y _ j p h
                        (λ z g. elim (Bool-cases (id == j)) [
                          | inl same ↦ inr (ground arith)
                          | inr other ↦ inl (a j ∙ ground arith)
                        ])
                        o ∣₁;
                },
              )
        ]
  ]
