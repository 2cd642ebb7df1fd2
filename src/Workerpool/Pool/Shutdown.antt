-- ===== src/Workerpool/Pool/Shutdown.antt =====
-- pool.go: no accepted job is lost while the dispatcher runs, and a graceful shutdown drains.
use go_asynctasklib.Workerpool.Pool.{Pool, place, reject_calls, close_shutdown, cancel, proceeds}
use go_asynctasklib.Workerpool.Claims as Claims
use go_asynctasklib.Workerpool.Claims.{Round, Outcome}
use go_asynctasklib.Workerpool.Pool.Dispatch.{
  World, Ending, Dispatch, Step, Reach, held, jobs, new_world, running, drained_out, takes, hands,
  spins, ends_drained, ends_canceled, dispatches, enters, gives_up, places, rejects_calls,
  closes_shutdown, cancels, start, later,
}
use go_asynctasklib.Base.{
  ◌≡◌, List, Option, none, ◌++◌, some, ◌∷◌, length, [], ◌∙◌, arith, ◌≤◌, ap, ◌<◌, ◌≢◌, refl, sym,
  subst, ℕ, ◌-◌, length-append,
}
use mathlib.Core.List.{append_assoc, append-nil}

ending_apart : (x : Ending) → x ≡ running → x ≡ drained_out → ⊥
ending_apart x e f = absurd cc

module _ {J : Type 0} where
  pub record IsLossless (w : World J) : Type 0 where
    pub kept : w.accepted ≡ jobs w.handled ++ (held w.in_hand ++ w.pool.backlog)
    pub fits : length w.pool.backlog ≤ w.pool.capacity
    pub ended : w.ending ≢ running → w.in_hand ≡ none
    pub drained : w.ending ≡ drained_out → w.at_end ≡ jobs w.handled

  pub jobs_snoc :
      (hs : List (J × Outcome)) (t : J) (o : Outcome)
      → jobs (hs ++ ((t, o) ∷ [])) ≡ jobs hs ++ (t ∷ [])
  jobs_snoc [] t o = refl
  jobs_snoc (h ∷ hs) t o = ap (λ ts. h.0 ∷ ts) (jobs_snoc hs t o)

  kept_in :
      (w : World J) (h : Option J) (b : List J)
      → w.in_hand ≡ h
      → w.pool.backlog ≡ b
      → IsLossless w
      → w.accepted ≡ jobs w.handled ++ (held h ++ b)
  kept_in w h b e f l =
      l.kept
      ∙ ap (λ x. jobs w.handled ++ (held x ++ w.pool.backlog)) e
      ∙ ap (λ x. jobs w.handled ++ (held h ++ x)) f

  place_lem :
      (t : J) (p q : Pool J)
      → place proceeds t p ≡ some (q, none)
      → (record p { backlog = p.backlog ++ (t ∷ []) } ≡ q) × (length p.backlog < p.capacity)
  unfolding place
  place_lem t p q e = ground (arith, e)

  empty_handed : {o : Option J} (t : J) → o ≡ none → o ≡ some t → ⊥
  empty_handed t e f = absurd cc

  Dispatch-IsLossless : {w u : World J} → Dispatch w u → IsLossless w → IsLossless u
  Dispatch-IsLossless {w} (takes t ts r e f) h = record {
    kept = kept_in w none (t ∷ ts) e f h;
    fits = omega (arith, h.fits, ap length f);
    ended = λ n. absurd (n r);
    drained = λ d. absurd (ending_apart w.ending r d);
  }
  Dispatch-IsLossless {w} (hands t rounds o e s) h = record {
    kept =
        kept_in w (some t) w.pool.backlog e refl h
        ∙ sym (append_assoc (jobs w.handled) (t ∷ []) w.pool.backlog)
        ∙ ap (λ x. x ++ w.pool.backlog) (sym (jobs_snoc w.handled t o));
    fits = h.fits;
    ended = λ n. refl;
    drained = λ d. absurd (empty_handed t (h.ended (λ r. ending_apart w.ending r d)) e);
  }
  Dispatch-IsLossless (spins r e s) h = h
  Dispatch-IsLossless {w} (ends_drained r e s f) h = record {
    kept = h.kept;
    fits = h.fits;
    ended = λ n. e;
    drained = λ d. kept_in w none [] e f h ∙ append-nil (jobs w.handled);
  }
  Dispatch-IsLossless (ends_canceled r e s) h = record {
    kept = h.kept;
    fits = h.fits;
    ended = λ n. e;
    drained = λ d. absurd cc;
  }

  Step-IsLossless : {w u : World J} → Step w u → IsLossless w → IsLossless u
  unfolding reject_calls close_shutdown cancel
  Step-IsLossless (dispatches d) h = Dispatch-IsLossless d h
  Step-IsLossless (enters e) h = record {
    kept = h.kept;
    fits = h.fits;
    ended = h.ended;
    drained = h.drained;
  }
  Step-IsLossless (gives_up l) h = record {
    kept = h.kept;
    fits = h.fits;
    ended = h.ended;
    drained = h.drained;
  }
  Step-IsLossless {w} (places t p l e) h =
      let (same, room) = place_lem t w.pool p e in
      subst
        (λ q.
          IsLossless
            (record w { pool = q; waiting = w.waiting - 1; accepted = w.accepted ++ (t ∷ []) }))
        same
        (record {
          kept =
              ap (λ xs. xs ++ (t ∷ [])) h.kept
              ∙ append_assoc (jobs w.handled) (held w.in_hand ++ w.pool.backlog) (t ∷ [])
              ∙ ap (λ xs. jobs w.handled ++ xs)
                  (append_assoc (held w.in_hand) w.pool.backlog (t ∷ []));
          fits = omega (arith, room, length-append w.pool.backlog (t ∷ []));
          ended = h.ended;
          drained = h.drained;
        })
  Step-IsLossless (rejects_calls) h = record {
    kept = h.kept;
    fits = h.fits;
    ended = h.ended;
    drained = h.drained;
  }
  Step-IsLossless (closes_shutdown e) h = record {
    kept = h.kept;
    fits = h.fits;
    ended = h.ended;
    drained = h.drained;
  }
  Step-IsLossless (cancels) h = record {
    kept = h.kept;
    fits = h.fits;
    ended = h.ended;
    drained = h.drained;
  }

  Reach-IsLossless : {w u : World J} → Reach w u → IsLossless w → IsLossless u
  Reach-IsLossless start h = h
  Reach-IsLossless (later r s) h = Step-IsLossless s (Reach-IsLossless r h)

  -- Over any interleaving of Submit, of the closing and of the dispatcher of a new pool: the jobs
  -- accepted are those handed to the claims dispatcher, then the one in the dispatcher's hand, then
  -- the backlog, each once and in order; the backlog holds at most its capacity; the dispatcher
  -- returns empty-handed; and if it returns drained, every job accepted up to then was handed on.
  pub pool-IsLossless :
      (claims : Claims.Claims) (capacity : ℕ) (w : World J)
      → Reach (new_world claims capacity) w
      → IsLossless w
  pool-IsLossless claims capacity w r = Reach-IsLossless r (record {
    kept = refl;
    fits = omega arith;
    ended = λ n. refl;
    drained = λ d. absurd (ending_apart running refl d);
  })
