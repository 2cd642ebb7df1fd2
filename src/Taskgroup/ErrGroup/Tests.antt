-- ===== src/Taskgroup/ErrGroup/Tests.antt =====
-- Two tasks, the second of which fails, with a group that keeps the first error.
use go_asynctasklib.Base.{[], ◌∷◌, none, some, arith, List, Mem, Option, ◌≡◌, ◌≢◌, ◌⊎◌, subst}
use go_asynctasklib.Base.Int.{pos}
use go_asynctasklib.Base.Errors.{Error, user}
use go_asynctasklib.Task.{Task, created, no_name, returned, started_first}
use go_asynctasklib.Taskgroup.ErrGroup.{
  ErrGroup, IsErrGroup, Submitted, ran, Passes, Fails, submit_with_err_group,
  submit_with_err_group-Answers,
}
use mathlib.Core.Logic.Or
use mathlib.Core.List.{not-mem-nil, mem-cons, mem-cons_of_mem, mem-cons_self}

first_error : List (Option Error) → Option Error
first_error [] = none
first_error (none ∷ rs) = first_error rs
first_error (some e ∷ rs) = some e

first_kept : (rs : List (Option Error)) (e : Error) → Mem (some e) rs → first_error rs ≢ none
unfolding first_error
first_kept [] e m q = absurd (not-mem-nil m)
first_kept (some x ∷ rs) e m q = ground (arith, q)
first_kept (none ∷ rs) e m q =
    Or.elim (hlevel) (mem-cons.0 m) (λ p. ground (arith, p)) (λ n. first_kept rs e n q)

first_member : (rs : List (Option Error)) (e : Error) → first_error rs ≡ some e → Mem (some e) rs
unfolding first_error
first_member [] e q = absurd (ground (arith, q))
first_member (none ∷ rs) e q = mem-cons_of_mem _ (first_member rs e q)
first_member (some x ∷ rs) e q = subst (λ y. Mem y (some x ∷ rs)) q mem-cons_self

abbrev group : ErrGroup
group = record { wait = first_error }

group-IsErrGroup : IsErrGroup group
group-IsErrGroup = record { error_kept = first_kept; error_waits = first_member }

abbrev new_task : Task
new_task = record {
  definition = record {
    id = 1;
    name = no_name;
    task_fn = some 0;
    hooks = none;
    delay = pos 0;
    max_duration = pos 5;
    retry_delay = pos 0;
    max_retries = pos 0;
    retry_strategy = none;
  };
  timeout = pos 5;
  state = created;
  told = [];
  attempts = 0;
  last_err = none;
}

abbrev two_tasks : List Submitted
two_tasks =
    ran started_first (returned none) new_task
    ∷ ran started_first (returned (some (user 3))) new_task
    ∷ []

submit_with_err_group-Answers_example :
    ((submit_with_err_group group two_tasks ≡ none)
      × ((s : Submitted) → Mem s two_tasks → Passes s))
    ⊎ ((x : Error) × (submit_with_err_group group two_tasks ≡ some x)
        × ∥ ((s : Submitted) × Mem s two_tasks × Fails s x) ∥₁)
submit_with_err_group-Answers_example =
    submit_with_err_group-Answers group two_tasks group-IsErrGroup
