-- ===== src/Taskqueue/Queue/Dequeue.antt =====
-- Dequeue: when it returns, and what.
use go_asynctasklib.Base.{
  subst, sym, ℕ, ◌≡◌, ◌≢◌, refl, ◌⊎◌, inl, inr, true, false, Option, none, some, List, [], ◌∷◌,
  Bool-cases, Option-cases, arith,
}
use go_asynctasklib.Base.Int.{ℤ, pos, ◌+ℤ◌, ◌-ℤ◌, -ℤ_parts, ◌≤ℤ◌, leb_ℤ}
use go_asynctasklib.Base.Errors.{Error, queue, queue_empty, queue_closed, ok, err, Result}
use go_asynctasklib.Taskqueue.Types.{Lease}
use go_asynctasklib.Taskqueue.Backend.{Backend, View, Implements, Claimed, Job}
use go_asynctasklib.Taskqueue.DeadLetter.{DeadLetter}
use go_asynctasklib.Taskqueue.Queue.{Queue, Claim, on_claim}
use go_asynctasklib.Taskqueue.Queue.Consume.{Round, poll, dequeue}

pub no_job-or_job : (xs : List Job) → (xs ≡ []) ⊎ (xs ≢ [])
no_job-or_job [] = inl refl
no_job-or_job (x ∷ xs) = inr (λ e. ground arith)

module _ (b : Backend) (v : View b) (good : Implements b v) (d : DeadLetter) where
  -- The context is live whenever Claim reads it, and the other goroutines keep the backend valid.
  abbrev pub IsFair : List (Round b d) → Type 0
  IsFair [] = Unit {0}
  IsFair (r ∷ rs) =
      (r.claim_ctx ≡ none) × ((s : b.State) → v.Valid s → v.Valid (r.others s)) × IsFair rs

  -- Some round sees the deadline at hand or past.
  abbrev pub Expires : ℤ → List (Round b d) → Type 0
  Expires deadline [] = ⊥
  Expires deadline (r ∷ rs) = (deadline ≤ℤ r.check_time) ⊎ Expires deadline rs

  -- The round hands out a claim on a job that waited, as the backend granted it.
  abbrev Delivered : Round b d → Queue b d → Option (Queue b d × Result (Claim b d)) → Type 0
  Delivered r q x =
      (t : b.State) × (l : Lease) × Claimed b v q.backend t r.token r.claim_time q.visibility l
      × (x
          ≡ some (
            record q { backend = t; log = on_claim l ∷ q.log },
            ok (record { lease = l; settled = false }),
          ))

  -- The answer of the loop: the first round of these that ends it does so by the context's error, by
  -- a claim, or, where no job waits, by ErrQueueEmpty at the deadline or by the error of the context
  -- that ends the wait; the rounds before see a live context, no job and time left.
  abbrev pub Polled :
      ℤ → List (Round b d) → Queue b d → Option (Queue b d × Result (Claim b d)) → Type 0
  Polled deadline [] q x = ⊥
  Polled deadline (r ∷ rs) q x =
      ((e : Error) × (r.ctx ≡ some e) × (x ≡ some (q, err e)))
      ⊎ ((r.ctx ≡ none)
          × (Delivered r q x
              ⊎ ((v.ready q.backend ≡ [])
                  × (((deadline ≤ℤ r.check_time) × (x ≡ some (q, err (queue queue_empty))))
                      ⊎ ((deadline ≤ℤ r.check_time → ⊥)
                          × (((e : Error) × (r.woken ≡ some e) × (x ≡ some (q, err e)))
                              ⊎ ((r.woken ≡ none)
                                  × Polled deadline rs (record q { backend = r.others q.backend })
                                      x)))))))

  -- The answer of Dequeue, on a closed queue and on an open one.
  abbrev pub Returns :
      ℤ → List (Round b d) → Queue b d → Option (Queue b d × Result (Claim b d)) → Type 0
  Returns deadline rs q x =
      ((q.closed ≡ true) × (x ≡ some (q, err (queue queue_closed))))
      ⊎ ((q.closed ≡ false) × Polled deadline rs q x)

  -- The two ways in which a claim under a live context ends.
  claim_ends :
      (s : b.State) (ctx : Option Error) (k : ℕ) (now visibility : ℤ)
      → v.Valid s
      → ctx ≡ none
      → ((v.ready s ≡ []) × (b.claim ctx k now visibility s ≡ some (s, err (queue queue_empty))))
        ⊎ ((t : b.State) × (l : Lease) × Claimed b v s t k now visibility l
            × (b.claim ctx k now visibility s ≡ some (t, ok l)))
  claim_ends s ctx k now visibility valid e = elim (no_job-or_job (v.ready s)) [
    | inl idle ↦ inl (idle, rw e (good.claim_empty s k now visibility valid idle))
    | inr busy ↦
        let (t, l, c, g) = good.claim_takes s k now visibility valid busy in inr (t, l, g, rw e c)
  ]

  poll-Polled :
      (deadline : ℤ) (rs : List (Round b d)) (q : Queue b d)
      → v.Valid q.backend
      → IsFair rs
      → Expires deadline rs
      → Polled deadline rs q (poll b d deadline rs q)
  unfolding poll
  poll-Polled deadline [] q valid f x = absurd x
  poll-Polled deadline (r ∷ rs) q valid f x = elim (Option-cases r.ctx) [
    | inr (e, dead) ↦ inl (e, dead, rw (dead, poll) refl)
    | inl alive ↦
        elim (claim_ends q.backend r.claim_ctx r.token r.claim_time q.visibility valid f.0) [
          | inr (t, l, g, c) ↦ inr (alive, inl (t, l, g, rw (alive, poll) (rw c refl)))
          | inl (idle, c) ↦ elim (Bool-cases (leb_ℤ (deadline -ℤ r.check_time) (pos 0))) [
            | inl late ↦
                let past : deadline ≤ℤ r.check_time =
                  ground (arith, late, -ℤ_parts deadline r.check_time) in
                inr (alive, inr (idle, inl (past, rw (alive, poll) (rw c (rw late refl)))))
            | inr early ↦
                let ahead : (deadline ≤ℤ r.check_time → ⊥) =
                  λ p. ground (arith, p, early, -ℤ_parts deadline r.check_time) in
                elim (Option-cases r.woken) [
                  | inr (e, w) ↦
                      let same : poll b d deadline (r ∷ rs) q ≡ some (q, err e) =
                        rw (alive, poll) (rw c (rw early (rw w refl))) in
                      inr (alive, inr (idle, inr (ahead, inl (e, w, same))))
                  | inl w ↦
                      let later : Expires deadline rs =
                        ground (arith, x, early, -ℤ_parts deadline r.check_time) in
                      let q' = record q { backend = r.others q.backend } in
                      let rest = poll-Polled deadline rs q' (f.1 q.backend valid) f.2 later in
                      let same : poll b d deadline (r ∷ rs) q ≡ poll b d deadline rs q' =
                        rw (alive, poll) (rw c (rw early (rw w refl))) in
                      let all = subst (λ y. Polled deadline rs q' y) (sym same) rest in
                      inr (alive, inr (idle, inr (ahead, inr (w, all))))
                ]
          ]
        ]
  ]

  -- Over a backend that keeps its contract, where every Claim of the rounds reads a live context,
  -- the other goroutines keep the backend valid, and some round sees the deadline at hand, Dequeue
  -- returns: ErrQueueClosed on a closed queue, and else what the first round brings that does not
  -- see a live context, no job and time left: the context's error at its head, a claim as the
  -- backend granted it wherever a job waits, ErrQueueEmpty where none does and the deadline has
  -- come, or the error of the context that ends the wait.
  pub dequeue-Returns :
      (now timeout : ℤ) (rs : List (Round b d)) (q : Queue b d)
      → v.Valid q.backend
      → IsFair rs
      → Expires (now +ℤ timeout) rs
      → Returns (now +ℤ timeout) rs q (dequeue b d now timeout rs q)
  unfolding dequeue
  dequeue-Returns now timeout rs q valid f x = elim (Bool-cases q.closed) [
    | inl shut ↦ inl (shut, rw (shut, dequeue) refl)
    | inr live ↦
        let same : dequeue b d now timeout rs q ≡ poll b d (now +ℤ timeout) rs q =
          ground (arith, live) in
        let polled = poll-Polled (now +ℤ timeout) rs q valid f x in
        inr (live, subst (λ y. Polled (now +ℤ timeout) rs q y) (sym same) polled)
  ]

  -- On an open queue with work, and under a live context, the first round delivers: the claim is
  -- unsettled, its lease is what the backend granted, and one OnClaim event is emitted.
  pub dequeue_delivers :
      (now timeout : ℤ) (r : Round b d) (rs : List (Round b d)) (q : Queue b d)
      → v.Valid q.backend
      → q.closed ≡ false
      → r.ctx ≡ none
      → r.claim_ctx ≡ none
      → v.ready q.backend ≢ []
      → (t : b.State) × (l : Lease) × (dequeue b d now timeout (r ∷ rs) q
          ≡ some (
            record q { backend = t; log = on_claim l ∷ q.log },
            ok (record { lease = l; settled = false }),
          ))
        × Claimed b v q.backend t r.token r.claim_time q.visibility l
  unfolding dequeue
  dequeue_delivers now timeout r rs q valid live head ctx busy =
      let (t, l, c, g) = good.claim_takes q.backend r.token r.claim_time q.visibility valid busy in
      (t, l, ground (arith, c), g)
