-- ===== src/Workerpool/Claims/Dispatch.antt =====
-- claims.go: what submit returns, and that it returns.
use go_asynctasklib.Base.Table
use go_asynctasklib.Base.Errors.{submit_timeout}
use mathlib.Core.Option.{some-injective}
use mathlib.Core.List.{mem-cons_self, mem-cons_of_mem}
use go_asynctasklib.Workerpool.Claims.{
  Round, offer, select, round, submit, Outcome, Claims, delivered, claim_arrives, failed, job_done,
  Arrival, time_over,
}
use go_asynctasklib.Base.{
  ℕ, ◌≡◌, List, some, ◌++◌, true, ◌∷◌, [], Mem, ◌⊎◌, none, ◌<◌, length, Option-cases, Bool-cases,
  refl, if◌then◌else◌, inl, subst, ◌==◌, arith, inr, ◌∙◌, sym,
}
use go_asynctasklib.Base.Int.{pos, ◌<ℤ◌, ◌≤ℤ◌, leb_ℤ}
use go_asynctasklib.Workerpool.Ticks.{present, Present}
use go_asynctasklib.Base.Errors.{pool, dispatcher_closed, no_workers, submit_timeout}

-- What a round must have seen for the loop to end in it with an outcome.
abbrev pub Explains : Round → Outcome → Type 0
Explains r (delivered w) =
    (r.arrival ≡ claim_arrives (some w))
    × (Table.lookup w r.subscribers ≡ some present)
    × (r.accepts ≡ true)
    × (pos 0 <ℤ r.remaining)
Explains r (failed e) =
    (r.arrival ≡ job_done e)
    ⊎ ((r.arrival ≡ claim_arrives none) × (e ≡ pool dispatcher_closed))
    ⊎ ((r.remaining ≤ℤ pos 0) × (r.subscribers ≡ []) × (e ≡ pool no_workers))
    ⊎ ((r.remaining ≤ℤ pos 0) × (0 < length r.subscribers) × (e ≡ pool submit_timeout))

offer-delivers :
    (c : Claims) (r : Round) (w : ℕ) (o : Outcome)
    → offer c r w ≡ some o
    → (delivered w ≡ o) × (Table.lookup w r.subscribers ≡ some present) × (r.accepts ≡ true)
unfolding offer
offer-delivers c r w o e = elim (Option-cases (Table.lookup w r.subscribers)) [
  | inl f ↦ absurd (ground (arith, f, e))
  | inr (present, f) ↦ (ground (arith, f, e), f, ground (arith, f, e))
]

select-Explains :
    (c : Claims) (r : Round) (a : Arrival) (o : Outcome)
    → r.arrival ≡ a
    → pos 0 <ℤ r.remaining
    → select c r a ≡ some o
    → Explains r o
unfolding select
select-Explains c r (job_done x) o f p e = subst (Explains r) (some-injective _ _ e) (inl f)
select-Explains c r time_over o f p e = absurd (ground arith)
select-Explains c r (claim_arrives none) o f p e =
    subst (Explains r) (some-injective _ _ e) (inr (inl (f, refl)))
select-Explains c r (claim_arrives (some w)) o f p e =
    let (g, here, takes) = offer-delivers c r w o e in subst (Explains r) g (f, here, takes, p)

-- The outcome when the time is over.
abbrev time_out : List (ℕ × Present) → Outcome
time_out subscribers =
    failed (pool (if length subscribers == 0 then no_workers else submit_timeout))

timeout-Explains :
    (r : Round) (subscribers : List (ℕ × Present))
    → r.subscribers ≡ subscribers
    → r.remaining ≤ℤ pos 0
    → Explains r (time_out subscribers)
timeout-Explains r [] f p = inr (inr (inl (p, f, refl)))
timeout-Explains r (x ∷ xs) f p =
    let some_left : 0 < length r.subscribers = rw f (omega arith) in
    inr (inr (inr (p, some_left, ground arith)))

round-over :
    (c : Claims) (r : Round) → r.remaining ≤ℤ pos 0 → round c r ≡ some (time_out r.subscribers)
unfolding round
round-over c r h =
    let late : leb_ℤ r.remaining (pos 0) ≡ true = ground arith in rw (round, late) refl

pub round-Explains : (c : Claims) (r : Round) (o : Outcome) → round c r ≡ some o → Explains r o
unfolding round
round-Explains c r o e = elim (Bool-cases (leb_ℤ r.remaining (pos 0))) [
  | inl f ↦
      subst (Explains r) (some-injective _ _ (sym (round-over c r (ground arith)) ∙ e))
        (timeout-Explains r r.subscribers refl (ground arith))
  | inr f ↦ select-Explains c r r.arrival o refl (ground arith) (ground (arith, f, e))
]

-- The rounds behind one that goes round again.
submit_step :
    (c : Claims) (r : Round) (rs : List Round) (o : Outcome)
    → ((round c r ≡ some o) → submit c (r ∷ rs) ≡ some o)
      × (round c r ≡ none → submit c (r ∷ rs) ≡ submit c rs)
unfolding submit
submit_step c r rs o = (λ e. rw (submit, e) refl, λ e. rw (submit, e) refl)

-- The loop of submit returns as soon as a round finds the time over, if not before, whatever the
-- workers do; it returns nil only in a round that received the claim of a subscribed worker that
-- took the job in time, and an error only in a round with the error's cause: the job's own error,
-- the closed channel, or the time over, with ErrNoWorkers exactly without subscribers.
pub submit-Explains :
    (c : Claims) (rs : List Round) (last : Round)
    → last.remaining ≤ℤ pos 0
    → (o : Outcome) × (submit c (rs ++ (last ∷ [])) ≡ some o)
      × ((r : Round) × Mem r (rs ++ (last ∷ [])) × Explains r o)
submit-Explains c [] last h = (
  time_out last.subscribers,
  (submit_step c last [] (time_out last.subscribers)).0 (round-over c last h),
  (last, mem-cons_self, timeout-Explains last last.subscribers refl h),
)
submit-Explains c (r ∷ rs) last h = elim (Option-cases (round c r)) [
  | inl e ↦
      let (o, f, (x, m, g)) = submit-Explains c rs last h in
      (o, (submit_step c r _ o).1 e ∙ f, (x, mem-cons_of_mem _ m, g))
  | inr (o, e) ↦ (o, (submit_step c r _ o).0 e, (r, mem-cons_self, round-Explains c r o e))
]
