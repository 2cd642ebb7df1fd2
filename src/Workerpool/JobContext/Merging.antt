-- ===== src/Workerpool/JobContext/Merging.antt =====
-- jobcontext.go: Done and Err of the merged context over any order of its callbacks.
use go_asynctasklib.Workerpool.JobContext.Endings.{IsSound, Reach-IsSound, Placed, Settled}
use go_asynctasklib.Workerpool.JobContext.{
  pool_registers, submit_registers, pool_ends, submit_ends, pool_runs, submit_runs, pool_stops,
  submit_stops, unregistered, armed, started, stopping, finished, stopped, start, later, settle,
  job_err, JobContext, Callback, new_job_context, Step, Reach,
}
use go_asynctasklib.Base.{
  Bool, Option, false, ◌≡◌, true, none, refl, if_both, ◌∙◌, ◌≢◌, some, ◌⊎◌, arith, subst,
}
use go_asynctasklib.Base.Errors.{Error}

-- Once closed, `done` stays so, with the error.
settle_keeps :
    (f : Option Error) (j : JobContext) → j.done ≡ true → job_err (settle f j) ≡ job_err j
unfolding settle
settle_keeps f j e = rw e refl

settle_closed : (f : Option Error) (j : JobContext) → j.done ≡ true → (settle f j).done ≡ true
unfolding settle
settle_closed f j e = if_both (λ (x : JobContext). x.done ≡ true) j.done _ _ (λ _. e) (λ _. refl)

stays_closed_once :
    {j k : JobContext} → Step j k → j.done ≡ true → (job_err k ≡ job_err j) × (k.done ≡ true)
unfolding job_err
stays_closed_once (pool_registers e) h = (refl, h)
stays_closed_once (submit_registers n e) h = (refl, h)
stays_closed_once (pool_ends e q) h = (refl, h)
stays_closed_once (submit_ends e q) h = (refl, h)
stays_closed_once (pool_runs e) h = (settle_keeps _ _ h, settle_closed _ _ h)
stays_closed_once (submit_runs e) h = (settle_keeps _ _ h, settle_closed _ _ h)
stays_closed_once (pool_stops e n) h = (refl, h)
stays_closed_once (submit_stops e) h = (refl, h)

stays_closed :
    {j k : JobContext} → Reach j k → j.done ≡ true → (job_err k ≡ job_err j) × (k.done ≡ true)
stays_closed start h = (refl, h)
stays_closed (later r s) h =
    let (e, d) = stays_closed r h in let (f, c) = stays_closed_once s d in (f ∙ e, c)

-- Registered, and not about to run.
abbrev pub is_quiet : Callback → Bool
is_quiet unregistered = false
is_quiet started = false
is_quiet c = true

quiet_closed :
    (d : Bool) (c : Callback) (f : Option Error)
    → is_quiet c ≡ true
    → f ≢ none
    → Placed d c f
    → d ≡ true
quiet_closed d unregistered f q n h = absurd cc
quiet_closed d armed f q n h = absurd (n h)
quiet_closed d started f q n h = absurd cc
quiet_closed d stopping f q n h = h.1
quiet_closed d finished f q n h = h.1
quiet_closed d stopped f q n h = h

pub record Merges (j : JobContext) : Type 0 where
  pub open_nil : j.done ≡ false → job_err j ≡ none
  pub closed_error :
      j.done ≡ true
      → (job_err j ≢ none) × ((job_err j ≡ j.pool_ctx.failure) ⊎ (job_err j ≡ j.submit_ctx.failure))
  pub sticks : (k : JobContext) → Reach j k → j.done ≡ true → job_err k ≡ job_err j
  pub pool_seen : is_quiet j.pool_ctx.callback ≡ true → j.pool_ctx.failure ≢ none → j.done ≡ true
  pub submit_seen :
      is_quiet j.submit_ctx.callback ≡ true → j.submit_ctx.failure ≢ none → j.done ≡ true

settled_error :
    (d : Bool) (k p s : Option Error)
    → Settled d k p s
    → d ≡ true
    → (k ≢ none) × ((k ≡ p) ⊎ (k ≡ s))
settled_error true k p s h e = h
settled_error false k p s h e = absurd cc

IsSound-Merges : (j : JobContext) → IsSound j → Merges j
unfolding job_err
IsSound-Merges j h = record {
  open_nil = λ e. rw e refl;
  closed_error = λ e. rw e (settled_error j.done j.kept _ _ h.settled e);
  sticks = λ k r e. (stays_closed r e).0;
  pool_seen = λ q n. quiet_closed j.done j.pool_ctx.callback _ q n h.pool_fits;
  submit_seen = λ q n. quiet_closed j.done j.submit_ctx.callback _ q n h.submit_fits;
}

-- Over any order of the registrations, the callbacks and the ends of the two parents, the merged
-- context of newJobContext has no error while its Done channel is open; once that is closed, its
-- error is that of a parent that has ended, and never changes again; and when a parent has ended
-- and its callback is registered and not about to run, the channel is closed.
pub new_job_context-Merges :
    (p s : Option Error) (j k : JobContext)
    → new_job_context (some p) (some s) ≡ some j
    → Reach j k
    → Merges k
unfolding new_job_context
new_job_context-Merges p s j k e r =
    let fresh : JobContext = record {
      pool_ctx = record { failure = p; callback = unregistered };
      submit_ctx = record { failure = s; callback = unregistered };
      done = false;
      kept = none;
    } in
    let same : fresh ≡ j = ground (arith, e) in
    let sound : IsSound fresh = record { pool_fits = tt; submit_fits = tt; settled = tt } in
    IsSound-Merges k (Reach-IsSound r (subst IsSound same sound))
