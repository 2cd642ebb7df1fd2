-- ===== src/Workerpool/Pool/Drain.antt =====
-- pool.go: the dispatcher comes to its end behind a closed `shutdown`.
use go_asynctasklib.Workerpool.Pool.{dispatch_errors}
use go_asynctasklib.Workerpool.Claims as Claims
use go_asynctasklib.Workerpool.Claims.{Round, Outcome}
use go_asynctasklib.Workerpool.Pool.Dispatch.{
  World, Run, Dispatch, Ending, held, jobs, running, drained_out, canceled_out, takes, hands, spins,
  ends_drained, ends_canceled, over, first,
}
use go_asynctasklib.Workerpool.Pool.Shutdown.{jobs_snoc}
use go_asynctasklib.Base.{
  List, ◌≡◌, ◌≢◌, ◌⊎◌, subst, none, some, ◌++◌, true, ◌∷◌, ◌∙◌, sym, Option-cases, [], ap, inl, inr,
  refl, Option,
}
use mathlib.Core.List.{append_assoc, append-nil}

-- The claims dispatcher returns for each job.
abbrev pub Answers : Type 0 → Claims.Claims → Type 0
Answers J c = (t : J) → (rounds : List Round) × (o : Outcome) × (Claims.submit c rounds ≡ some o)

ending_cases : (x : Ending) → (x ≡ running) ⊎ ((x ≡ drained_out) ⊎ (x ≡ canceled_out))
ending_cases running = inl refl
ending_cases drained_out = inr (inl refl)
ending_cases canceled_out = inr (inr refl)

module _ {J : Type 0} where
  -- The jobs that were handled, in hand and in the backlog.
  abbrev line : World J → List J
  line w = jobs w.handled ++ (held w.in_hand ++ w.pool.backlog)

  -- The state `v` is drained: what `w` had in hand and in the backlog has been handled, in order.
  pub record IsFlushed (w v : World J) : Type 0 where
    pub ended : v.ending ≡ drained_out
    pub backlog_empty : v.pool.backlog ≡ []
    pub all_handled : jobs v.handled ≡ jobs w.handled ++ (held w.in_hand ++ w.pool.backlog)

  -- Where a dispatcher that came from `w` stands: it was canceled, is drained, or can become so.
  abbrev pub Drains : World J → World J → Type 0
  Drains w u =
      ((u.ending ≡ canceled_out) × (u.pool.canceled ≡ true))
      ⊎ (IsFlushed w u ⊎ ((v : World J) × Run u v × IsFlushed w v))

  -- What the dispatcher's own actions keep.
  record Keeps (w u : World J) : Type 0 where
    same_line : line u ≡ line w
    same_claims : u.pool.claims ≡ w.pool.claims
    same_shutdown : u.pool.shutdown ≡ w.pool.shutdown
    empty_handed : u.ending ≢ running → u.in_hand ≡ none
    empty_backlog : u.ending ≡ drained_out → u.pool.backlog ≡ []
    was_canceled : u.ending ≡ canceled_out → u.pool.canceled ≡ true

  line_at :
      (w : World J) (h : Option J) (b : List J)
      → w.in_hand ≡ h
      → w.pool.backlog ≡ b
      → jobs w.handled ++ (held h ++ b) ≡ line w
  line_at w h b e f = sym (
      ap (λ x. jobs w.handled ++ (held x ++ w.pool.backlog)) e
      ∙ ap (λ x. jobs w.handled ++ (held h ++ x)) f)

  Dispatch-Keeps : {w u v : World J} → Dispatch u v → Keeps w u → Keeps w v
  Dispatch-Keeps {w} {u} (takes t ts r e f) k = record {
    same_line = line_at u none (t ∷ ts) e f ∙ k.same_line;
    same_claims = k.same_claims;
    same_shutdown = k.same_shutdown;
    empty_handed = λ n. absurd (n r);
    empty_backlog = λ d. absurd cc;
    was_canceled = λ d. absurd cc;
  }
  Dispatch-Keeps {w} {u} (hands t rounds o e s) k = record {
    same_line =
        ap (λ x. x ++ u.pool.backlog) (jobs_snoc u.handled t o)
        ∙ append_assoc (jobs u.handled) (t ∷ []) u.pool.backlog
        ∙ line_at u (some t) u.pool.backlog e refl
        ∙ k.same_line;
    same_claims = k.same_claims;
    same_shutdown = k.same_shutdown;
    empty_handed = λ n. refl;
    empty_backlog = k.empty_backlog;
    was_canceled = k.was_canceled;
  }
  Dispatch-Keeps (spins r e s) k = k
  Dispatch-Keeps (ends_drained r e s f) k = record {
    same_line = k.same_line;
    same_claims = k.same_claims;
    same_shutdown = k.same_shutdown;
    empty_handed = λ n. e;
    empty_backlog = λ d. f;
    was_canceled = λ d. absurd cc;
  }
  Dispatch-Keeps (ends_canceled r e s) k = record {
    same_line = k.same_line;
    same_claims = k.same_claims;
    same_shutdown = k.same_shutdown;
    empty_handed = λ n. e;
    empty_backlog = λ d. absurd cc;
    was_canceled = λ d. s;
  }

  Run-Keeps : {w u v : World J} → Run u v → Keeps w u → Keeps w v
  Run-Keeps over k = k
  Run-Keeps (first d r) k = Run-Keeps r (Dispatch-Keeps d k)

  flushed : (w v : World J) → v.ending ≡ drained_out → Keeps w v → IsFlushed w v
  flushed w v e k = record {
    ended = e;
    backlog_empty = k.empty_backlog e;
    all_handled =
        sym (append-nil (jobs v.handled))
        ∙ line_at v none [] (k.empty_handed (λ r. absurd cc)) (k.empty_backlog e)
        ∙ k.same_line;
  }

  -- The job in the dispatcher's hand.
  abbrev handed : World J → J → Outcome → World J
  handed w t o = record w {
    in_hand = none;
    handled = w.handled ++ ((t, o) ∷ []);
    errors = w.errors ++ dispatch_errors t o;
  }

  abbrev Finishes : World J → Type 0
  Finishes w = (v : World J) × Run w v × (v.ending ≡ drained_out)

  drain_backlog :
      (ts : List J) (w : World J)
      → w.ending ≡ running
      → w.in_hand ≡ none
      → w.pool.shutdown ≡ true
      → w.pool.backlog ≡ ts
      → Answers J w.pool.claims
      → Finishes w
  drain_backlog [] w r e s b a = (
    record w { ending = drained_out; at_end = w.accepted },
    first (ends_drained r e s b) over,
    refl,
  )
  drain_backlog (t ∷ ts) w r e s b a =
      let took : World J = record w { pool = record w.pool { backlog = ts }; in_hand = some t } in
      let (rounds, o, q) = a t in
      let (v, run, d) = drain_backlog ts (handed took t o) r refl s refl a in
      (v, first (takes t ts r e b) (first (hands t rounds o refl q) run), d)

  finishes :
      (w : World J)
      → w.ending ≡ running
      → w.pool.shutdown ≡ true
      → Answers J w.pool.claims
      → Finishes w
  finishes w r s a = elim (Option-cases w.in_hand) [
    | inl e ↦ drain_backlog w.pool.backlog w r e s refl a
    | inr (t, e) ↦
        let (rounds, o, q) = a t in
        let (v, run, d) = drain_backlog w.pool.backlog (handed w t o) r refl s refl a in
        (v, first (hands t rounds o e q) run, d)
  ]

  -- Where `shutdown` is closed and each call of the claims dispatcher's submit returns, with some
  -- answer, wherever its own actions have taken a dispatcher that runs: either it saw the context
  -- canceled; or it has come to the drained end, with the backlog empty and with the submit of each
  -- job that it had in hand or in the backlog ended, by a delivery or an error, in order; or some
  -- further actions of its own take it to that end.
  pub dispatcher-Drains :
      (w u : World J)
      → w.ending ≡ running
      → w.pool.shutdown ≡ true
      → Answers J w.pool.claims
      → Run w u
      → Drains w u
  dispatcher-Drains w u r s a run =
      let k : Keeps w u = Run-Keeps run (record {
        same_line = refl;
        same_claims = refl;
        same_shutdown = refl;
        empty_handed = λ n. absurd (n r);
        empty_backlog = λ d. absurd cc;
        was_canceled = λ d. absurd cc;
      }) in
      elim (ending_cases u.ending) [
        | inl e ↦
            let answers = subst (λ c. Answers J c) (sym k.same_claims) a in
            let (v, q, d) = finishes u e (k.same_shutdown ∙ s) answers in
            inr (inr (v, q, flushed w v d (Run-Keeps q k)))
        | inr (inl e) ↦ inr (inl (flushed w u e k))
        | inr (inr e) ↦ inl (e, k.was_canceled e)
      ]
