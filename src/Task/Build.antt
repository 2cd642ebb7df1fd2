-- ===== src/Task/Build.antt =====
-- pkg/task/builder.go: the options, and Build with its validation.
use go_asynctasklib.Base.{◌∷◌, subst, sym}
use go_asynctasklib.Base.Errors.{
  task, Result, ok, err, id_not_set, task_fn_not_set, max_retries_not_set,
}
use go_asynctasklib.Base.{
  ℕ, List, Option, ◌<◌, Bool-cases, none, if◌then◌else◌, ◌≢◌, ◌==◌, ◌≡◌, arith, inl, inr, ◌⊎◌,
  Option-cases, some, [], refl,
}
use go_asynctasklib.Task.{Definition, Name, no_name, numbered, text}
use go_asynctasklib.Base.Int.{ℤ, pos, ◌<ℤ◌, ◌≤ℤ◌, leb_ℤ}

pub data OptionFunc : Type 0 where
  with_id : ℕ → OptionFunc
  with_name : Name → OptionFunc
  with_task_fn : Option ℕ → OptionFunc
  with_max_retries with_max_duration with_delay with_timeout with_retry_delay : ℤ → OptionFunc
  with_hooks : Option ℕ → OptionFunc
  with_retry_strategy : Option (ℕ → ℤ) → OptionFunc

unfoldable pub apply_option : OptionFunc → Definition → Definition
apply_option (with_id x) d = record d { id = x }
apply_option (with_name x) d = record d { name = x }
apply_option (with_task_fn x) d = record d { task_fn = x }
apply_option (with_max_retries x) d = record d { max_retries = x }
apply_option (with_max_duration x) d = record d { max_duration = x }
apply_option (with_delay x) d = record d { delay = x }
apply_option (with_timeout x) d = record d { max_duration = x }
apply_option (with_retry_delay x) d = record d { retry_delay = x }
apply_option (with_hooks x) d = record d { hooks = x }
apply_option (with_retry_strategy x) d = record d { retry_strategy = x }

-- NewBuilder drops the nil options.
unfoldable pub new_builder : List (Option OptionFunc) → List OptionFunc
new_builder [] = []
new_builder (none ∷ os) = new_builder os
new_builder (some o ∷ os) = o ∷ new_builder os

unfoldable pub apply_all : List OptionFunc → Definition → Definition
apply_all [] d = d
apply_all (o ∷ os) d = apply_all os (apply_option o d)

-- The zero value of the struct.
abbrev pub no_definition : Definition
no_definition = record {
  id = 0;
  name = no_name;
  task_fn = none;
  hooks = none;
  delay = pos 0;
  max_duration = pos 0;
  retry_delay = pos 0;
  max_retries = pos 0;
  retry_strategy = none;
}

-- An empty name is replaced by one made of the ID.
unfoldable pub name_or : ℕ → Name → Name
name_or id no_name = numbered id
name_or id (text x) = text x
name_or id (numbered x) = numbered x

-- The switch of Build and the name.
unfoldable pub validate : Definition → Result Definition
validate d = if d.id == 0 then err (task id_not_set) else (elim d.task_fn [
  | none ↦ err (task task_fn_not_set)
  | some _ ↦
      if leb_ℤ d.max_retries (pos 0)
      then err (task max_retries_not_set)
      else ok (record d { name = name_or d.id d.name })
])

unfoldable pub build : List OptionFunc → Result Definition
build opts = validate (apply_all opts no_definition)

-- What Build promises of a definition.
pub record IsRunnable (d : Definition) : Type 0 where
  pub identified : 0 < d.id
  pub named : d.name ≢ no_name
  pub callable : d.task_fn ≢ none
  pub retried : pos 0 <ℤ d.max_retries

-- The answer of Build against the definition that the options give: it is runnable and differs from
-- it in an empty name alone, or the error names the first field that is missing.
abbrev pub Answers : Definition → Result Definition → Type 0
Answers d (ok r) = IsRunnable r × (r ≡ record d { name = name_or d.id d.name })
Answers d (err e) =
    ((d.id ≡ 0) × (e ≡ task id_not_set))
    ⊎ ((0 < d.id) × (d.task_fn ≡ none) × (e ≡ task task_fn_not_set))
    ⊎ ((0 < d.id) × (d.task_fn ≢ none) × (d.max_retries ≤ℤ pos 0) × (e ≡ task max_retries_not_set))

named_or : (id : ℕ) (n : Name) → name_or id n ≢ no_name
unfolding name_or
named_or id no_name e = ground arith
named_or id (text x) e = ground arith
named_or id (numbered x) e = ground arith

validate-Answers : (d : Definition) → Answers d (validate d)
unfolding validate
validate-Answers d = elim (Bool-cases (d.id == 0)) [
  | inl e ↦
      let g : validate d ≡ err (task id_not_set) = rw (validate, e) refl in
      subst (Answers d) (sym g) (inl (ground arith, refl))
  | inr e ↦ elim (Option-cases d.task_fn) [
    | inl f ↦
        let g : validate d ≡ err (task task_fn_not_set) = rw (validate, e, f) refl in
        subst (Answers d) (sym g) (inr (inl (ground arith, f, refl)))
    | inr (x, f) ↦
        let set : d.task_fn ≢ none = λ n. absurd (ground (arith, f, n)) in
        elim (Bool-cases (leb_ℤ d.max_retries (pos 0))) [
          | inl h ↦
              let g : validate d ≡ err (task max_retries_not_set) = rw (validate, e, f, h) refl in
              subst (Answers d) (sym g) (inr (inr (ground arith, set, ground arith, refl)))
          | inr h ↦
              let g : validate d ≡ ok (record d { name = name_or d.id d.name }) =
                ground (arith, e, f, h) in
              subst (Answers d) (sym g) (
                record {
                  identified = ground arith;
                  named = named_or d.id d.name;
                  callable = set;
                  retried = ground arith;
                },
                refl,
              )
        ]
  ]
]

-- Build gives a runnable definition, which is the one that the options make but for a name put in
-- place of an empty one, or the error of the first of ID, TaskFn and MaxRetries that is not set.
pub build-Answers : (opts : List OptionFunc) → Answers (apply_all opts no_definition) (build opts)
unfolding build
build-Answers opts = validate-Answers (apply_all opts no_definition)
