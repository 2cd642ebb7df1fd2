-- ===== src/Workerpool/System/Delivery.antt =====
-- pool.go, claims.go and worker.go: where each accepted job is.
use go_asynctasklib.Workerpool.System.Keeping.{
  join_error, refused-Kept, Kept, moved, acted, Own-Kept, joined-Kept, given-other, given-own,
  given-failed, put_each,
}
use go_asynctasklib.Workerpool.System.{
  System, Step, Reach, Claim, Member, Phase, Own, held, given, put, receive, delivered_to,
  new_member, ends, handles, context_ends, left, leave_times_out, ready, searching, sending,
}
use go_asynctasklib.Base.Table
use go_asynctasklib.Workerpool.System as System
use go_asynctasklib.Workerpool.Claims as Claims
use go_asynctasklib.Workerpool.Claims.Dispatch.{round-Explains}
use go_asynctasklib.Workerpool.Claims.{Outcome, delivered, failed}
use go_asynctasklib.Workerpool.Worker.{Worker, take_job}
use go_asynctasklib.Workerpool.Worker.Reports.{
  World, Reports, reported_snoc, starts_snoc, job_of, start_of, in_hand, is_busy,
}
use go_asynctasklib.Workerpool.Worker.Reports as Reports
use go_asynctasklib.Workerpool.Pool.Dispatch.{jobs}
use go_asynctasklib.Workerpool.System.Causes.{AllCaused, delivered-AllCaused, failed-AllCaused}
use go_asynctasklib.Base.{
  ◌∷◌, [], none, some, ℕ, suc, ◌≡◌, ◌++◌, length, ap, ◌≤◌, ◌∙◌, sym, subst, if◌then◌else◌, Bool,
  arith, refl, length-append, if_both,
}
use mathlib.Core.List.{map-append, append_assoc}

module _ {J : Type 0} where
  one_changed :
      (s : System J) (i : ℕ) (v : Worker J) (n : ℕ)
      → Kept v (delivered_to i s.handled)
      → ((j : ℕ) → Kept (s.members j).worker (delivered_to j s.handled))
      → (j : ℕ)
      → Kept
          (put i (record { worker = v; input = n }) s.members j).worker
          (delivered_to j s.handled)
  one_changed s i v n k ks =
      put_each (λ j (m : Member J). Kept m.worker (delivered_to j s.handled)) i
        (record { worker = v; input = n }) s.members k (λ j n. ks j)

  pub record IsDelivered (s : System J) : Type 0 where
    pub order : s.accepted ≡ jobs s.handled ++ (held s.phase ++ s.backlog)
    pub each : (i : ℕ) → Kept (s.members i).worker (delivered_to i s.handled)
    pub backlog_fits : length s.backlog ≤ s.capacity
    pub caused : AllCaused s.handled
    pub claims_fit : length s.claims_ch ≤ s.claims_size

  receive-held :
      (c : Claims.Claims) (b : Bool) (t : J) (x : Claim) → held (receive c b t x) ≡ t ∷ []
  unfolding receive
  receive-held c b t x =
      elim (Table.lookup x.id c.subscribers)
        as (λ l.
          held (elim l [ none ↦ searching t | some _ ↦ if b then sending t x else searching t ])
          ≡ t ∷ []) [
            | none ↦ refl
            | some _ ↦
                if_both (λ p. held p ≡ t ∷ []) b (sending t x) (searching t) (λ q. refl) (λ q. refl)
          ]

  at_phase :
      (s : System J) (p : Phase J)
      → s.phase ≡ p
      → s.accepted ≡ jobs s.handled ++ (held s.phase ++ s.backlog)
      → s.accepted ≡ jobs s.handled ++ (held p ++ s.backlog)
  at_phase s p e h = subst (λ x. s.accepted ≡ jobs s.handled ++ (held x ++ s.backlog)) e h

  -- The job that the dispatcher has becomes the last of those handled.
  settled :
      (s : System J) (t : J) (o : Outcome)
      → held s.phase ≡ t ∷ []
      → s.accepted ≡ jobs s.handled ++ (held s.phase ++ s.backlog)
      → s.accepted ≡ jobs (s.handled ++ ((t, o) ∷ [])) ++ s.backlog
  settled s t o e h =
      h
      ∙ ap (λ ts. jobs s.handled ++ (ts ++ s.backlog)) e
      ∙ sym (append_assoc (jobs s.handled) (t ∷ []) s.backlog)
      ∙ ap (λ ts. ts ++ s.backlog) (sym (map-append (λ h. h.0) s.handled ((t, o) ∷ [])))

  pub Step-IsDelivered : {s u : System J} → Step s u → IsDelivered s → IsDelivered u
  Step-IsDelivered {s} (System.arrives t l) h = record {
    order =
        ap (λ ts. ts ++ (t ∷ [])) h.order
        ∙ append_assoc (jobs s.handled) (held s.phase ++ s.backlog) (t ∷ [])
        ∙ ap (λ ts. jobs s.handled ++ ts) (append_assoc (held s.phase) s.backlog (t ∷ []));
    each = h.each;
    backlog_fits = omega (arith, l, length-append s.backlog (t ∷ []));
    caused = h.caused;
    claims_fit = h.claims_fit;
  }
  Step-IsDelivered {s} (System.dispatches t ts p b) h = record {
    order = at_phase s ready p h.order ∙ ap (λ us. jobs s.handled ++ us) b;
    each = h.each;
    backlog_fits = omega (arith, ap length b, h.backlog_fits);
    caused = h.caused;
    claims_fit = h.claims_fit;
  }
  Step-IsDelivered {s} (System.receives t c cs b p q) h = record {
    order =
        at_phase s (searching t) p h.order
        ∙ ap (λ ts. jobs s.handled ++ (ts ++ s.backlog)) (sym (receive-held s.claims b t c));
    each = h.each;
    backlog_fits = h.backlog_fits;
    caused = h.caused;
    claims_fit = omega (arith, ap length q, h.claims_fit);
  }
  Step-IsDelivered {s} (System.fails t r e p q x) h = record {
    order = settled s t (failed e) (ap held p) h.order;
    each = λ j. subst (Kept (s.members j).worker) (sym (given-failed j t e s.handled)) (h.each j);
    backlog_fits = h.backlog_fits;
    caused = failed-AllCaused s.handled t e r (round-Explains s.claims r (failed e) x) h.caused;
    claims_fit = h.claims_fit;
  }
  Step-IsDelivered {s} (System.meets t c p q l) h = record {
    order = settled s t (delivered c.id) (ap held p) h.order;
    each =
        put_each
          (λ j (m : Member J).
            Kept m.worker (delivered_to j (s.handled ++ ((t, delivered c.id) ∷ []))))
          c.id _ s.members
          (subst (Kept (take_job t (s.members c.id).worker)) (sym (given-own c.id t s.handled))
            (acted _ _ _ _ (λ k. Reports.takes t l) (h.each c.id)))
          (λ j n.
            subst (Kept (s.members j).worker) (sym (given-other j c.id t s.handled n)) (h.each j));
    backlog_fits = h.backlog_fits;
    caused = delivered-AllCaused s.handled t c.id h.caused;
    claims_fit = h.claims_fit;
  }
  Step-IsDelivered {s} (System.gives_up t c p) h = record {
    order = at_phase s (sending t c) p h.order;
    each = h.each;
    backlog_fits = h.backlog_fits;
    caused = h.caused;
    claims_fit = h.claims_fit;
  }
  Step-IsDelivered {s} (System.advertises i l q) h = record {
    order = h.order;
    each = one_changed s i _ _ (moved _ _ _ _ suc (λ k. Reports.claims l) (h.each i)) h.each;
    backlog_fits = h.backlog_fits;
    caused = h.caused;
    claims_fit =
        omega (
          arith,
          q,
          length-append s.claims_ch (record { id = i; input = (s.members i).input } ∷ []),
        );
  }
  Step-IsDelivered {s} (System.works i v o) h = record {
    order = h.order;
    each = one_changed s i _ _ (Own-Kept _ _ _ o (h.each i)) h.each;
    backlog_fits = h.backlog_fits;
    caused = h.caused;
    claims_fit = h.claims_fit;
  }
  Step-IsDelivered {s} (System.joins i now v d l q) h = record {
    order = h.order;
    each = one_changed s i _ _ (joined-Kept now s.claims d _ _ _ l q (h.each i)) h.each;
    backlog_fits = h.backlog_fits;
    caused = h.caused;
    claims_fit = h.claims_fit;
  }
  Step-IsDelivered {s} (System.join_fails i ctx now v d e q) h = record {
    order = h.order;
    each =
        one_changed s i _ _
          (refused-Kept _ v _ (join_error ctx now s.claims _ v (some d) e q) (h.each i)) h.each;
    backlog_fits = h.backlog_fits;
    caused = h.caused;
    claims_fit = h.claims_fit;
  }
  Step-IsDelivered {s} (System.leaves i v d e q) h = record {
    order = h.order;
    each =
        one_changed s i _ _
          (acted _ _ _ _ (λ k. Reports.leaves (some s.claims) v (some d) e q) (h.each i)) h.each;
    backlog_fits = h.backlog_fits;
    caused = h.caused;
    claims_fit = h.claims_fit;
  }

  pub Reach-IsDelivered : {s u : System J} → Reach s u → IsDelivered s → IsDelivered u
  Reach-IsDelivered System.start h = h
  Reach-IsDelivered (System.later r x) h = Step-IsDelivered x (Reach-IsDelivered r h)
