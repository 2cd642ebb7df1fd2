-- ===== src/Task/Retries.antt =====
-- task.go: GoRetry returns, and counts at most the configured number of attempts.
use go_asynctasklib.Base.{
  ℕ, zero, suc, ◌+◌, ◌≤◌, ◌<◌, ◌≡◌, refl, ◌∙◌, Bool-cases, Option-cases, inl, inr, Option, none,
  some, arith, subst, ap,
}
use go_asynctasklib.Base.Int.{ℤ, pos, ltb_ℤ, leb_ℤ}
use go_asynctasklib.Base.Errors.{Error, is_canceled}
use go_asynctasklib.Task.{run_first, returns, again, started_first, go_retry, failed}
use go_asynctasklib.Task.{
  Task, run, keep_err, spawn, go, Definition, pause, after_go, Attempt, enter, Next, count,
  attempt_loop, End, Order, Call, returns, is_failed, context_done, started, is_in_progress, again,
  retry_pause, timed_out, started_first, pending, returned,
}

-- Two states of one task, with the same count.
abbrev Same : Task → Task → Type 0
Same t u = (u.definition ≡ t.definition) × (u.attempts ≡ t.attempts)

run-Same : (e : End) (t : Task) → Same t ((run e t).0)
unfolding run enter
run-Same (context_done e) t = (refl, refl)
run-Same (timed_out (some e)) t = (refl, refl)
run-Same (timed_out none) t = (refl, refl)
run-Same (returned none) t = (refl, refl)
run-Same (returned (some e)) t = elim (Bool-cases (is_canceled e)) [
  | inl f ↦ rw (run, f) (refl, refl)
  | inr f ↦ rw (run, f) (refl, refl)
]

keep_err-Same : (t : Task) (r : Task × Option Error) → Same t r.0 → Same t (keep_err r)
unfolding keep_err
keep_err-Same t (u, none) h = h
keep_err-Same t (u, some e) h = h

spawn-Same : (o : Order) (e : End) (t : Task) → Same t (spawn o e t)
unfolding spawn enter
spawn-Same started_first e t =
    keep_err-Same t (run e (enter started t)) (run-Same e (enter started t))
spawn-Same run_first e t = keep_err-Same t (run e t) (run-Same e t)

go-Same : (c : Call) (t : Task) → Same t ((go c t).0)
unfolding go enter
go-Same c t = elim (Bool-cases c.nil_ctx) [
  | inl e ↦ rw (go, e) (refl, refl)
  | inr e ↦ elim (Bool-cases (is_in_progress t.state)) [
    | inl f ↦ rw (go, e, f) (refl, refl)
    | inr f ↦ elim (Option-cases c.ctx_done) [
      | inl g ↦ rw (go, e, f, g) (spawn-Same c.order c.end (enter pending t))
      | inr (x, g) ↦ rw (go, e, f, g) (refl, refl)
    ]
  ]
]

-- What an attempt does to the count, from a state with the count `k` of a task with definition `d`.
abbrev Counts : Definition → ℕ → Next → Type 0
Counts d k (returns u r) = u.attempts ≤ suc k
Counts d k (again u r) = (u.definition ≡ d) × (u.attempts ≡ suc k)

pause-Counts :
    (o : Option Error) (d : ℤ) (t : Task) (k : ℕ)
    → t.attempts ≡ suc k
    → Counts t.definition k (pause o d t)
unfolding pause enter
pause-Counts none d t k h = (refl, h)
pause-Counts (some e) d t k h = elim (Bool-cases (ltb_ℤ (pos 0) d)) [
  | inl f ↦ rw (pause, f) (omega arith)
  | inr f ↦ rw (pause, f) (refl, h)
]

after_go-Counts :
    (o : Option Error) (r : Task × Option Error) (k : ℕ)
    → r.0.attempts ≡ k
    → k < 4294967295
    → Counts r.0.definition k (after_go o r)
unfolding after_go count
after_go-Counts o (t, some e) k h b = omega arith
after_go-Counts o (t, none) k h b = elim (Bool-cases (is_failed t.state)) [
  | inl f ↦ rw (after_go, f) (pause-Counts o (retry_pause t) (count t) k (omega arith))
  | inr f ↦ rw (after_go, f) (omega arith)
]

-- A result of the loop with a bound on the count.
abbrev Within : ℕ → Option (Task × Option Error) → Type 0
Within m o = (u : Task) × (r : Option Error) × (o ≡ some (u, r)) × (u.attempts ≤ m)

next_returns :
    (n m k : ℕ) (attempts : ℕ → Attempt) (d : Definition) (x : Next)
    → Counts d k x
    → k < m
    → ((u : Task) (r : Option Error)
        → u.definition ≡ d
        → u.attempts ≡ suc k
        → Within m (attempt_loop n attempts u r))
    → Within m (elim x as (λ _. Option (Task × Option Error)) [
      | returns u r ↦ some (u, r)
      | again u r ↦ attempt_loop n attempts u r
    ])
next_returns n m k attempts d (returns u r) h b later = (u, r, refl, omega arith)
next_returns n m k attempts d (again u r) (e, f) b later = later u r e f

-- The loop on enough fuel for the attempts that are left.
loop_returns :
    (n m : ℕ) (attempts : ℕ → Attempt) (t : Task) (cause : Option Error)
    → t.definition.max_retries ≡ pos m
    → m < 4294967296
    → t.attempts ≤ m
    → m < t.attempts + n
    → Within m (attempt_loop n attempts t cause)
unfolding attempt_loop
loop_returns zero m attempts t cause h b l f = absurd (omega arith)
loop_returns (suc n) m attempts t cause h b l f =
    elim (Bool-cases (leb_ℤ t.definition.max_retries (pos t.attempts))) [
      | inl e ↦ rw (attempt_loop, e) (t, _, refl, l)
      | inr e ↦
          let below : t.attempts < m = ground (arith, h, e) in
          let a = attempts t.attempts in
          let r = go a.call t in
          let (same, kept) = go-Same a.call t in
          let counts : Counts t.definition t.attempts (after_go a.pause_done r) =
            subst (λ d. Counts d t.attempts (after_go a.pause_done r)) same
              (after_go-Counts a.pause_done r t.attempts kept (omega arith)) in
          rw (attempt_loop, e)
            (next_returns n m t.attempts attempts t.definition (after_go a.pause_done r) counts
              below
              (λ u x g k.
                loop_returns n m attempts u x (ap (λ d. d.max_retries) g ∙ h) b (omega arith)
                  (omega arith)))
    ]

-- On fuel for one attempt more than maxRetries, which is below 2 ^ 32, GoRetry returns, whatever the
-- runs do and in whatever order the goroutines run, and the attempts that it counts stay within
-- maxRetries.
pub go_retry-Returns :
    (m : ℕ) (attempts : ℕ → Attempt) (t : Task)
    → t.definition.max_retries ≡ pos m
    → m < 4294967296
    → t.attempts ≤ m
    → (u : Task) × (r : Option Error) × (go_retry (suc m) attempts t ≡ some (u, r))
      × (u.attempts ≤ m)
unfolding go_retry
go_retry-Returns m attempts t h b l = elim (Bool-cases (leb_ℤ t.definition.max_retries (pos 0))) [
  | inl e ↦ rw (go_retry, e) (record t { state = failed }, _, refl, l)
  | inr e ↦ rw (go_retry, e) (loop_returns (suc m) m attempts t none h b l (omega arith))
]
