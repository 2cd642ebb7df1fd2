-- ===== src/Taskgroup/Batch.antt =====
-- taskgroup.go: Submit as one call, and SubmitBatch, with what other goroutines do before each call.
use go_asynctasklib.Taskgroup.{TaskGroup, submit_begin, submit_end}
use go_asynctasklib.Base.{
  ◌∷◌, [], none, some, Option, List, map, ℕ, ◌≡◌, inl, take, refl, suc, inr, ◌⊎◌, ap, ◌≢◌, ◌∙◌,
}
use go_asynctasklib.Base.Errors.{ok, err, Error, Result}
use go_asynctasklib.Task.{State}

-- A task to submit: what others do to the group before, the context's error at the wait for the
-- slot, and what Task.Go returns with the state that it leaves.
pub record Submission : Type 0 where
  pub others : TaskGroup → TaskGroup
  pub ctx_done : Option Error
  pub state : State
  pub go_err : Option Error

-- The results of the two parts of Submit.
unfoldable pub submitted : State → TaskGroup × Option Error → TaskGroup × Result State
submitted s (g, some e) = (g, err e)
submitted s (g, none) = (g, ok s)

unfoldable pub go_on : Submission → TaskGroup × Option Error → Option (TaskGroup × Result State)
go_on s (g, some e) = some (g, err e)
go_on s (g, none) = elim (submit_end s.state s.go_err g) [
  | none ↦ none
  | some r ↦ some (submitted s.state r)
]

-- `none` is a call that waits for ever for its slot.
unfoldable pub submit : Submission → TaskGroup → Option (TaskGroup × Result State)
submit s g = elim (submit_begin s.ctx_done (s.others g)) [ none ↦ none | some r ↦ go_on s r ]

pub record Batch : Type 0 where
  pub after : TaskGroup
  pub tasks : List State
  pub failure : Option Error

unfoldable pub add_task : State → Option Batch → Option Batch
add_task s none = none
add_task s (some b) = some (record b { tasks = s ∷ b.tasks })

-- The loop goes on behind a task that was started.
unfoldable pub next_submit :
    (TaskGroup → Option Batch) → Option (TaskGroup × Result State) → Option Batch
next_submit rest none = none
next_submit rest (some (g, err e)) = some (record { after = g; tasks = []; failure = some e })
next_submit rest (some (g, ok s)) = add_task s (rest g)

unfoldable pub submit_batch : List Submission → TaskGroup → Option Batch
submit_batch [] g = some (record { after = g; tasks = []; failure = none })
submit_batch (s ∷ ss) g = next_submit (submit_batch ss) (submit s g)

abbrev pub states : List Submission → List State
states ss = map (λ (s : Submission). s.state) ss

abbrev pub Prefix : List Submission → Option Batch → Type 0
Prefix ss none = Unit
Prefix ss (some b) =
    (k : ℕ) × (b.tasks ≡ take k (states ss))
    × ((take k (states ss) ≡ states ss) ⊎ (b.failure ≢ none))

-- A call that succeeds returns the task that it was given.
abbrev Own : Submission → Option (TaskGroup × Result State) → Type 0
Own s (some (g, ok t)) = t ≡ s.state
Own s (some (g, err e)) = Unit
Own s none = Unit

submitted-Own :
    (s : Submission) (o : Option (TaskGroup × Option Error))
    → Own s (elim o as (λ _. Option (TaskGroup × Result State)) [
      | none ↦ none
      | some r ↦ some (submitted s.state r)
    ])
unfolding submitted
submitted-Own s none = tt
submitted-Own s (some (g, none)) = refl
submitted-Own s (some (g, some e)) = tt

go_on-Own :
    (s : Submission) (o : Option (TaskGroup × Option Error))
    → Own s
        (elim o as (λ _. Option (TaskGroup × Result State)) [ none ↦ none | some r ↦ go_on s r ])
unfolding go_on
go_on-Own s none = tt
go_on-Own s (some (g, some e)) = tt
go_on-Own s (some (g, none)) = submitted-Own s (submit_end s.state s.go_err g)

submit-Own : (s : Submission) (g : TaskGroup) → Own s (submit s g)
unfolding submit
submit-Own s g = go_on-Own s (submit_begin s.ctx_done (s.others g))

add_task-Prefix :
    (s : Submission) (ss : List Submission) (t : State) (o : Option Batch)
    → t ≡ s.state
    → Prefix ss o
    → Prefix (s ∷ ss) (add_task t o)
unfolding add_task
add_task-Prefix s ss t none e h = tt
add_task-Prefix s ss t (some b) e (k, p, w) = (
  suc k,
  ap (λ x. x ∷ b.tasks) e ∙ ap (λ xs. s.state ∷ xs) p,
  elim w as (λ _. (take (suc k) (states (s ∷ ss)) ≡ states (s ∷ ss)) ⊎ (b.failure ≢ none)) [
    | inl q ↦ inl (ap (λ xs. s.state ∷ xs) q)
    | inr n ↦ inr n
  ],
)

next_submit-Prefix :
    (s : Submission) (ss : List Submission) (rest : TaskGroup → Option Batch)
    (o : Option (TaskGroup × Result State))
    → Own s o
    → ((g : TaskGroup) → Prefix ss (rest g))
    → Prefix (s ∷ ss) (next_submit rest o)
unfolding next_submit
next_submit-Prefix s ss rest none own h = tt
next_submit-Prefix s ss rest (some (g, err e)) own h = (0, refl, inr (λ n. cc))
next_submit-Prefix s ss rest (some (g, ok t)) own h = add_task-Prefix s ss t (rest g) own (h g)

-- SubmitBatch returns the tasks of the first definitions, in order, and all of them unless it
-- returns an error.
pub submit_batch-Prefix : (ss : List Submission) (g : TaskGroup) → Prefix ss (submit_batch ss g)
unfolding submit_batch
submit_batch-Prefix [] g = (0, refl, inl refl)
submit_batch-Prefix (s ∷ ss) g =
    next_submit-Prefix s ss (submit_batch ss) (submit s g) (submit-Own s g) (submit_batch-Prefix ss)
