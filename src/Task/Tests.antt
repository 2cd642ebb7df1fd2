-- ===== src/Task/Tests.antt =====
-- Runs of the builder and of GoRetry.
use mathlib.Core.Option
use go_asynctasklib.Base.{
  ◌∷◌, List, ℕ, Option, false, refl, some, none, ◌≡◌, if◌then◌else◌, ◌≤◌, ◌==◌, [], arith,
}
use go_asynctasklib.Task.{
  Definition, Order, Task, go_retry, new, Attempt, done, attempt_loop, enter, numbered, started,
  after_go, is_in_progress, pending, go, started_first, run_first, returned, failed, spawn, created,
  run, keep_err, pause, retry_pause, count, is_failed,
}
use go_asynctasklib.Task.Build.{
  build, no_definition, new_builder, apply_all, validate, with_id, name_or, with_task_fn,
  with_max_retries,
}
use go_asynctasklib.Task.Outcomes.{IsSettled, go_retry-IsSettled, go_retry_masked}
use go_asynctasklib.Task.Build.{OptionFunc, apply_option}
use go_asynctasklib.Base.Errors.{Error, ok, user, is_canceled, joined, task, max_retries_exceeded}
use go_asynctasklib.Base.Int.{pos}
use go_asynctasklib.Task.Retries.{go_retry-Returns}

abbrev options : List (Option OptionFunc)
options =
    some (with_id 4) ∷ none ∷ some (with_task_fn (some 1)) ∷ some (with_max_retries (pos 2)) ∷ []

abbrev definition : Definition
definition = record no_definition {
  id = 4;
  name = numbered 4;
  task_fn = some 1;
  max_retries = pos 2;
}

built : build (new_builder options) ≡ ok definition
unfolding build new_builder apply_all apply_option validate name_or
built = refl

-- Every attempt fails with one error.
abbrev fails : Order → ℕ → Attempt
fails o k = record {
  call = record { nil_ctx = false; ctx_done = none; end = returned (some (user 5)); order = o };
  pause_done = none;
}

-- The first attempt fails and the second is done.
abbrev recovers : ℕ → Attempt
recovers k = record {
  call = record {
    nil_ctx = false;
    ctx_done = none;
    end = returned (if k == 0 then some (user 5) else none);
    order = started_first;
  };
  pause_done = none;
}

abbrev fresh : Task
fresh = new definition

recovered : Task
recovered = record fresh {
  state = done;
  told = done ∷ started ∷ pending ∷ failed ∷ started ∷ pending ∷ created ∷ [];
  attempts = 1;
  last_err = some (user 5);
}

recovers_run : go_retry 3 recovers fresh ≡ some (recovered, none)
unfolding go_retry attempt_loop after_go go spawn run keep_err enter pause retry_pause count
    is_failed is_in_progress is_canceled new recovered
recovers_run = refl

exceeds :
    Option.map (λ r. r.1) (go_retry 3 (fails started_first) fresh)
    ≡ some (some (joined (task max_retries_exceeded) (user 5)))
unfolding go_retry attempt_loop after_go go spawn run keep_err enter pause retry_pause count
    is_failed is_in_progress is_canceled new
exceeds = refl

go_retry-Returns_example :
    (u : Task) × (r : Option Error) × (go_retry 3 (fails started_first) fresh ≡ some (u, r))
    × (u.attempts ≤ 2)
unfolding new enter
go_retry-Returns_example =
    go_retry-Returns 2 (fails started_first) fresh refl (omega arith) (omega arith)

go_retry-IsSettled_example : IsSettled recovered.state
go_retry-IsSettled_example = go_retry-IsSettled 3 recovers fresh recovered (λ k. refl) recovers_run

go_retry_masked_example :
    (u : Task) × (go_retry 3 (fails run_first) fresh ≡ some (u, none)) × (u.state ≡ started)
unfolding new enter is_in_progress
go_retry_masked_example =
    go_retry_masked 2 2 (fails run_first) fresh refl (omega arith) refl refl refl refl
