-- ===== src/Task/Outcomes.antt =====
-- task.go: what a nil result of GoRetry says of the task.

use go_asynctasklib.Task.{
  State, run, keep_err, spawn, is_end, go, enter, Task, End, is_failed, Call, done, started_first,
  context_done, canceled, timed_out, started, returned, created, is_in_progress, pending, failed,
  Next, pause, after_go, attempt_loop, go_retry, run_first, returns, retry_pause, Attempt, again,
  count,
}
use go_asynctasklib.Base.{
  ◌≡◌, true, Option, ◌⊎◌, ap, false, none, some, arith, Bool-cases, refl, ◌∙◌, inl, inr,
  Option-cases, ℕ, suc, zero, subst, ◌<◌,
}
use go_asynctasklib.Base.Errors.{Error, is_canceled, join, task, max_retries_exceeded}
use go_asynctasklib.Base.Int.{ℤ, ltb_ℤ, leb_ℤ, pos}

-- The task has ended without failing.
abbrev pub IsSettled : State → Type 0
IsSettled s = (s ≡ done) ⊎ (s ≡ canceled)

run-is_end : (e : End) (t : Task) → is_end ((run e t).0.state) ≡ true
unfolding run enter is_end
run-is_end (context_done e) t = refl
run-is_end (timed_out (some e)) t = refl
run-is_end (timed_out none) t = refl
run-is_end (returned none) t = refl
run-is_end (returned (some e)) t = elim (Bool-cases (is_canceled e)) [
  | inl f ↦ rw (run, f) refl
  | inr f ↦ rw (run, f) refl
]

keep_err-state : (r : Task × Option Error) → (keep_err r).state ≡ r.0.state
unfolding keep_err
keep_err-state (t, none) = refl
keep_err-state (t, some e) = refl

spawn-is_end : (e : End) (t : Task) → is_end ((spawn started_first e t).state) ≡ true
unfolding spawn
spawn-is_end e t =
    ap is_end (keep_err-state (run e (enter started t))) ∙ run-is_end e (enter started t)

settled : (s : State) → is_end s ≡ true → is_failed s ≡ false → IsSettled s
unfolding is_end is_failed
settled created e f = absurd (ground arith)
settled pending e f = absurd (ground arith)
settled started e f = absurd (ground arith)
settled done e f = inl refl
settled failed e f = absurd (ground arith)
settled canceled e f = inr refl

go-is_end :
    (c : Call) (t : Task)
    → c.order ≡ started_first
    → (go c t).1 ≡ none
    → is_end ((go c t).0.state) ≡ true
unfolding go
go-is_end c t o h = elim (Bool-cases c.nil_ctx) [
  | inl e ↦ absurd (ground (arith, e, h))
  | inr e ↦ elim (Bool-cases (is_in_progress t.state)) [
    | inl f ↦ absurd (ground (arith, e, f, h))
    | inr f ↦ elim (Option-cases c.ctx_done) [
      | inl g ↦ rw (go, e, f, g, o) (spawn-is_end c.end (enter pending t))
      | inr (x, g) ↦ absurd (ground (arith, e, f, g, h))
    ]
  ]
]

-- A nil result comes with a settled task.
abbrev Honest : Task → Option Error → Type 0
Honest u none = IsSettled u.state
Honest u (some e) = Unit

abbrev HonestNext : Next → Type 0
HonestNext (returns u r) = Honest u r
HonestNext (again u r) = Unit

abbrev HonestResult : Option (Task × Option Error) → Type 0
HonestResult none = Unit
HonestResult (some (u, r)) = Honest u r

pause-Honest : (o : Option Error) (d : ℤ) (t : Task) → HonestNext (pause o d t)
unfolding pause
pause-Honest none d t = tt
pause-Honest (some e) d t = elim (Bool-cases (ltb_ℤ (pos 0) d)) [
  | inl f ↦ rw (pause, f) tt
  | inr f ↦ rw (pause, f) tt
]

after_go-Honest :
    (o : Option Error) (r : Task × Option Error)
    → (r.1 ≡ none → is_end r.0.state ≡ true)
    → HonestNext (after_go o r)
unfolding after_go
after_go-Honest o (t, some e) h = tt
after_go-Honest o (t, none) h = elim (Bool-cases (is_failed t.state)) [
  | inl f ↦ rw (after_go, f) (pause-Honest o (retry_pause t) (count t))
  | inr f ↦ rw (after_go, f) (settled t.state (h refl) f)
]

next_honest :
    (n : ℕ) (attempts : ℕ → Attempt) (x : Next)
    → HonestNext x
    → ((u : Task) (r : Option Error) → HonestResult (attempt_loop n attempts u r))
    → HonestResult (elim x as (λ _. Option (Task × Option Error)) [
      | returns u r ↦ some (u, r)
      | again u r ↦ attempt_loop n attempts u r
    ])
next_honest n attempts (returns u r) h later = h
next_honest n attempts (again u r) h later = later u r

exceeded-Honest :
    (t : Task) (cause : Option Error) → Honest t (join (some (task max_retries_exceeded)) cause)
exceeded-Honest t none = tt
exceeded-Honest t (some e) = tt

loop-Honest :
    (n : ℕ) (attempts : ℕ → Attempt) (t : Task) (cause : Option Error)
    → ((k : ℕ) → (attempts k).call.order ≡ started_first)
    → HonestResult (attempt_loop n attempts t cause)
unfolding attempt_loop
loop-Honest zero attempts t cause o = tt
loop-Honest (suc n) attempts t cause o =
    elim (Bool-cases (leb_ℤ t.definition.max_retries (pos t.attempts))) [
      | inl e ↦ rw (attempt_loop, e) (exceeded-Honest t cause)
      | inr e ↦
          let a = attempts t.attempts in
          rw (attempt_loop, e)
            (next_honest n attempts (after_go a.pause_done (go a.call t))
              (after_go-Honest a.pause_done (go a.call t) (go-is_end a.call t (o t.attempts)))
              (λ u r. loop-Honest n attempts u r o))
    ]

-- If in every attempt the caller of Go marks the task as started before its run ends, then a nil
-- result of GoRetry says that the task is done or was canceled.
pub go_retry-IsSettled :
    (n : ℕ) (attempts : ℕ → Attempt) (t u : Task)
    → ((k : ℕ) → (attempts k).call.order ≡ started_first)
    → go_retry n attempts t ≡ some (u, none)
    → IsSettled u.state
unfolding go_retry
go_retry-IsSettled n attempts t u o e = elim (Bool-cases (leb_ℤ t.definition.max_retries (pos 0))) [
  | inl f ↦ absurd (ground (arith, f, e))
  | inr f ↦
      let g : attempt_loop n attempts t none ≡ some (u, none) = ground (arith, f, e) in
      subst HonestResult g (loop-Honest n attempts t none o)
]

go-masked :
    (c : Call) (t : Task)
    → c.nil_ctx ≡ false
    → is_in_progress t.state ≡ false
    → c.ctx_done ≡ none
    → c.order ≡ run_first
    → go c t ≡ (spawn run_first c.end (enter pending t), none)
unfolding go
go-masked c t e f g o = rw (go, e, f, g, o) refl

-- If the run ends before the caller of Go marks the task as started, then GoRetry returns nil after
-- this attempt and leaves the task as started, whatever ended the run, a failure included.
pub go_retry_masked :
    (n m : ℕ) (attempts : ℕ → Attempt) (t : Task)
    → t.definition.max_retries ≡ pos m
    → t.attempts < m
    → is_in_progress t.state ≡ false
    → (attempts t.attempts).call.nil_ctx ≡ false
    → (attempts t.attempts).call.ctx_done ≡ none
    → (attempts t.attempts).call.order ≡ run_first
    → (u : Task) × (go_retry (suc n) attempts t ≡ some (u, none)) × (u.state ≡ started)
unfolding go_retry attempt_loop after_go is_failed spawn enter
go_retry_masked n m attempts t h l p c d o =
    let a = attempts t.attempts in
    let u = spawn run_first a.call.end (enter pending t) in
    let runs : leb_ℤ t.definition.max_retries (pos 0) ≡ false = ground (arith, h) in
    let left : leb_ℤ t.definition.max_retries (pos t.attempts) ≡ false = ground (arith, h) in
    let called : go a.call t ≡ (u, none) = go-masked a.call t c p d o in
    let next : after_go a.pause_done (go a.call t) ≡ returns u none =
      ap (after_go a.pause_done) called in
    (u, rw (go_retry, runs, attempt_loop, left, next) refl, refl)
