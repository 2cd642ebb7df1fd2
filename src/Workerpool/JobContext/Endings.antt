-- ===== src/Workerpool/JobContext/Endings.antt =====
-- jobcontext.go: the invariant of the merged context over any order of its callbacks.
use go_asynctasklib.Workerpool.JobContext.{
  JobContext, Parent, Callback, Step, Reach, register, end, stop, settle, unregistered, armed,
  started, stopping, finished, stopped, after_func, wake, halt, pool_registers, later,
  submit_registers, start, pool_ends, submit_ends, pool_runs, submit_runs, pool_stops, submit_stops,
}
use go_asynctasklib.Base.{
  Bool, Option, ◌≡◌, none, ◌≢◌, inl, true, ◌⊎◌, inr, some, refl, false, ◌∙◌, subst, sym,
}
use go_asynctasklib.Base.Errors.{Error}

-- What the place of a callback says of its parent and of the closing of `done`.
abbrev pub Placed : Bool → Callback → Option Error → Type 0
Placed d unregistered f = Unit
Placed d armed f = f ≡ none
Placed d started f = f ≢ none
Placed d stopping f = (f ≢ none) × (d ≡ true)
Placed d finished f = (f ≢ none) × (d ≡ true)
Placed d stopped f = d ≡ true

abbrev pub Fits : Bool → Parent → Type 0
Fits d p = Placed d p.callback p.failure

-- The error is one of an ended parent, kept once.
abbrev pub Settled : Bool → Option Error → Option Error → Option Error → Type 0
Settled false kept p s = Unit
Settled true kept p s = (kept ≢ none) × ((kept ≡ p) ⊎ (kept ≡ s))

pub record IsSound (j : JobContext) : Type 0 where
  pub pool_fits : Fits j.done j.pool_ctx
  pub submit_fits : Fits j.done j.submit_ctx
  pub settled : Settled j.done j.kept j.pool_ctx.failure j.submit_ctx.failure

after_func-Placed : (d : Bool) (f : Option Error) → Placed d (after_func f) f
unfolding after_func
after_func-Placed d none = refl
after_func-Placed d (some e) = λ q. cc

wake-Placed :
    (d : Bool) (c : Callback) (f : Option Error) (e : Error)
    → Placed d c f
    → Placed d (wake c) (some e)
unfolding wake
wake-Placed d unregistered f e h = tt
wake-Placed d armed f e h = λ q. cc
wake-Placed d started f e h = λ q. cc
wake-Placed d stopping f e h = (λ q. cc, h.1)
wake-Placed d finished f e h = (λ q. cc, h.1)
wake-Placed d stopped f e h = h

halt-Placed :
    (d : Bool) (c : Callback) (f : Option Error) → d ≡ true → Placed d c f → Placed d (halt c) f
unfolding halt
halt-Placed d unregistered f e h = tt
halt-Placed d armed f e h = e
halt-Placed d started f e h = h
halt-Placed d stopping f e h = h
halt-Placed d finished f e h = h
halt-Placed d stopped f e h = h

-- Closing `done` keeps the place of a callback.
closed-Placed : (d : Bool) (c : Callback) (f : Option Error) → Placed d c f → Placed true c f
closed-Placed d unregistered f h = tt
closed-Placed d armed f h = h
closed-Placed d started f h = h
closed-Placed d stopping f h = (h.0, refl)
closed-Placed d finished f h = (h.0, refl)
closed-Placed d stopped f h = refl

-- An end of a parent that has not ended.
ended-Settled :
    (d : Bool) (kept p s q t : Option Error)
    → (p ≢ none → q ≡ p)
    → (s ≢ none → t ≡ s)
    → Settled d kept p s
    → Settled d kept q t
ended-Settled false kept p s q t f g h = tt
ended-Settled true kept p s q t f g (n, inl e) = (n, inl (e ∙ sym (f (λ z. n (e ∙ z)))))
ended-Settled true kept p s q t f g (n, inr e) = (n, inr (e ∙ sym (g (λ z. n (e ∙ z)))))

-- The once of a callback: its own parent has ended, and the sibling's place is kept.
pool_settles :
    (d : Bool) (kept p : Option Error) (s : Parent)
    → p ≢ none
    → Fits d s
    → Settled d kept p s.failure
    → IsSound (
        settle p (record {
          pool_ctx = record { failure = p; callback = stopping };
          submit_ctx = s;
          done = d;
          kept = kept;
        }))
unfolding settle
pool_settles true kept p s n f h = record { pool_fits = (n, refl); submit_fits = f; settled = h }
pool_settles false kept p s n f h = record {
  pool_fits = (n, refl);
  submit_fits = closed-Placed false s.callback s.failure f;
  settled = (n, inl refl);
}

submit_settles :
    (d : Bool) (kept s : Option Error) (p : Parent)
    → s ≢ none
    → Fits d p
    → Settled d kept p.failure s
    → IsSound (
        settle s (record {
          pool_ctx = p;
          submit_ctx = record { failure = s; callback = stopping };
          done = d;
          kept = kept;
        }))
unfolding settle
submit_settles true kept s p n f h = record { pool_fits = f; submit_fits = (n, refl); settled = h }
submit_settles false kept s p n f h = record {
  pool_fits = closed-Placed false p.callback p.failure f;
  submit_fits = (n, refl);
  settled = (n, inr refl);
}

at : (d : Bool) (f : Option Error) {c k : Callback} → c ≡ k → Placed d c f → Placed d k f
at d f e h = subst (λ x. Placed d x f) e h

Step-IsSound : {j k : JobContext} → Step j k → IsSound j → IsSound k
unfolding register end stop
Step-IsSound {j} (pool_registers e) h = record {
  pool_fits = after_func-Placed j.done j.pool_ctx.failure;
  submit_fits = h.submit_fits;
  settled = h.settled;
}
Step-IsSound {j} (submit_registers n e) h = record {
  pool_fits = h.pool_fits;
  submit_fits = after_func-Placed j.done j.submit_ctx.failure;
  settled = h.settled;
}
Step-IsSound {j} (pool_ends e q) h = record {
  pool_fits = wake-Placed j.done j.pool_ctx.callback j.pool_ctx.failure e h.pool_fits;
  submit_fits = h.submit_fits;
  settled = ended-Settled j.done j.kept _ _ _ _ (λ n. absurd (n q)) (λ _. refl) h.settled;
}
Step-IsSound {j} (submit_ends e q) h = record {
  pool_fits = h.pool_fits;
  submit_fits = wake-Placed j.done j.submit_ctx.callback j.submit_ctx.failure e h.submit_fits;
  settled = ended-Settled j.done j.kept _ _ _ _ (λ _. refl) (λ n. absurd (n q)) h.settled;
}
Step-IsSound {j} (pool_runs e) h =
    pool_settles j.done j.kept j.pool_ctx.failure j.submit_ctx (at _ _ e h.pool_fits) h.submit_fits
      h.settled
Step-IsSound {j} (submit_runs e) h =
    submit_settles j.done j.kept j.submit_ctx.failure j.pool_ctx (at _ _ e h.submit_fits)
      h.pool_fits h.settled
Step-IsSound {j} (pool_stops e n) h =
    let own = at _ _ {k = stopping} e h.pool_fits in
    record {
      pool_fits = own;
      submit_fits =
          halt-Placed j.done j.submit_ctx.callback j.submit_ctx.failure own.1 h.submit_fits;
      settled = h.settled;
    }
Step-IsSound {j} (submit_stops e) h =
    let own = at _ _ {k = stopping} e h.submit_fits in
    record {
      pool_fits = halt-Placed j.done j.pool_ctx.callback j.pool_ctx.failure own.1 h.pool_fits;
      submit_fits = own;
      settled = h.settled;
    }

pub Reach-IsSound : {j k : JobContext} → Reach j k → IsSound j → IsSound k
Reach-IsSound start h = h
Reach-IsSound (later r s) h = Step-IsSound s (Reach-IsSound r h)
