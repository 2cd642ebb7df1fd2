-- ===== src/Taskgroup/ErrGroup.antt =====
-- taskgroup.go: SubmitWithErrGroup, over a group of golang.org/x/sync/errgroup.
mod Tests
use go_asynctasklib.Base.{
  true, false, none, some, ◌≡◌, inl, inr, List, map, Mem, Option, ◌⊎◌, arith, if◌then◌else◌, refl,
  Bool-cases, if_both, Option-cases, ◌≢◌,
}
use go_asynctasklib.Base.Errors.{Error, join, joined, task, task_timeout, is_canceled}
use mathlib.Core.List.{mem-map}
use mathlib.Core.Logic.{∥∥₁_map}
use go_asynctasklib.Task.{
  returned, Task, Order, End, spawn, run, keep_err, enter, is_failed, pending, started_first,
  run_first, context_done, timed_out,
}

-- What Wait returns for the results of the functions, in the order of their ends.
pub record ErrGroup : Type 0 where
  pub wait : List (Option Error) → Option Error

-- Wait returns an error of one of the functions, or nil if none has any.
pub record IsErrGroup (g : ErrGroup) : Type 0 where
  pub error_kept : (rs : List (Option Error)) (e : Error) → Mem (some e) rs → g.wait rs ≢ none
  pub error_waits : (rs : List (Option Error)) (e : Error) → g.wait rs ≡ some e → Mem (some e) rs

-- What becomes of a definition: Submit refuses it, or its task is run to its end.
pub data Submitted : Type 0 where
  refused : Error → Submitted
  ran : Order → End → Task → Submitted

unfoldable pub after_await : Task → Option Error
after_await t = if is_failed t.state then t.last_err else none

unfoldable pub submit_and_await : Submitted → Option Error
submit_and_await (refused e) = some e
submit_and_await (ran o e t) = after_await (spawn o e (enter pending t))

unfoldable pub submit_with_err_group : ErrGroup → List Submitted → Option Error
submit_with_err_group g ss = g.wait (map submit_and_await ss)

-- A task that was started and is not FAILED, and the error of a definition.
abbrev pub Passes : Submitted → Type 0
Passes (refused e) = ⊥
Passes (ran o e t) = is_failed (spawn o e (enter pending t)).state ≡ false

abbrev pub Fails : Submitted → Error → Type 0
Fails (refused e) x = e ≡ x
Fails (ran o e t) x =
    (is_failed (spawn o e (enter pending t)).state ≡ true)
    × ((spawn o e (enter pending t)).last_err ≡ some x)

-- A run that leaves the task FAILED leaves an error.
kept_error :
    (t : Task) (r : Option Error)
    → ((e : Error) × (r ≡ some e)) ⊎ (is_failed t.state ≡ false)
    → is_failed (keep_err (t, r)).state ≡ true
    → (e : Error) × ((keep_err (t, r)).last_err ≡ some e)
unfolding keep_err
kept_error t none (inl (e, q)) f = absurd (ground (arith, q))
kept_error t none (inr q) f = absurd (ground (arith, q, f))
kept_error t (some e) h f = (e, refl)

join-some : (a : Error) (b : Option Error) → (x : Error) × (join (some a) b ≡ some x)
join-some a none = (a, refl)
join-some a (some b) = (joined a b, refl)

run_error :
    (e : End) (t : Task)
    → ((x : Error) × ((run e t).1 ≡ some x)) ⊎ (is_failed (run e t).0.state ≡ false)
unfolding run is_failed enter
run_error (context_done e) t = inr refl
run_error (timed_out (some e)) t = inr refl
run_error (timed_out none) t = inl (join-some (task task_timeout) t.last_err)
run_error (returned none) t = inr refl
run_error (returned (some e)) t =
    if_both
      (λ (p : Task × Option Error). ((x : Error) × (p.1 ≡ some x)) ⊎ (is_failed p.0.state ≡ false))
      (is_canceled e) _ _ (λ q. inr refl) (λ q. inl (e, refl))

spawn_error :
    (o : Order) (e : End) (t : Task)
    → is_failed (spawn o e t).state ≡ true
    → (x : Error) × ((spawn o e t).last_err ≡ some x)
unfolding spawn is_failed enter
spawn_error started_first e t f = kept_error _ _ (run_error e _) f
spawn_error run_first e t f = absurd (ground (arith, f))

passes_lem : (s : Submitted) → submit_and_await s ≡ none → Passes s
unfolding submit_and_await after_await
passes_lem (refused e) q = absurd (ground (arith, q))
passes_lem (ran o e t) q = elim (Bool-cases (is_failed (spawn o e (enter pending t)).state)) [
  | inl f ↦ let (x, p) = spawn_error o e (enter pending t) f in absurd (ground (arith, f, p, q))
  | inr f ↦ f
]

fails_lem : (s : Submitted) (x : Error) → submit_and_await s ≡ some x → Fails s x
unfolding submit_and_await after_await
fails_lem (refused e) x q = ground (arith, q)
fails_lem (ran o e t) x q = elim (Bool-cases (is_failed (spawn o e (enter pending t)).state)) [
  | inl f ↦ (f, ground (arith, f, q))
  | inr f ↦ absurd (ground (arith, f, q))
]

-- Over every group that returns an error of one of its functions, or nil if none has any:
-- SubmitWithErrGroup returns nil only where each definition was started and its task is not FAILED
-- after its run, and it returns an error only where Submit refused a definition with that error, or
-- a task is FAILED with it.
pub submit_with_err_group-Answers :
    (g : ErrGroup) (ss : List Submitted)
    → IsErrGroup g
    → ((submit_with_err_group g ss ≡ none) × ((s : Submitted) → Mem s ss → Passes s))
      ⊎ ((x : Error) × (submit_with_err_group g ss ≡ some x)
          × ∥ ((s : Submitted) × Mem s ss × Fails s x) ∥₁)
unfolding submit_with_err_group
submit_with_err_group-Answers g ss h = elim (Option-cases (g.wait (map submit_and_await ss))) [
  | inl q ↦ inl (
    q,
    λ s m. passes_lem s (elim (Option-cases (submit_and_await s)) [
      | inl e ↦ e
      | inr (x, e) ↦ absurd (
          h.error_kept (map submit_and_await ss) x
            ((mem-map {f = submit_and_await} {b = some x} {l = ss}).1 ∣ (s, m, e) ∣₁) q)
    ]),
  )
  | inr (x, q) ↦ inr (
    x,
    q,
    ∥∥₁_map
        ((mem-map {f = submit_and_await} {b = some x} {l = ss}).0
          (h.error_waits (map submit_and_await ss) x q))
        (λ (s, m, e). (s, m, fails_lem s x e)),
  )
]
