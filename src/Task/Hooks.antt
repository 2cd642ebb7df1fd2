-- ===== src/Task/Hooks.antt =====
-- pkg/task/state.go: the hooks of a task, and the options that set them.
use go_asynctasklib.Task.{State, created, pending, started, done, failed, canceled}
use go_asynctasklib.Base.{Option, List, ℕ, ◌≡◌, Bool, some, refl, true, false, none, ◌∙◌, ap}
use go_asynctasklib.Base.{◌∷◌, []}

-- A hook does nothing, or calls a function, nil as `none`, and recovers from its panic.
pub data Hook : Type 0 where
  noop : Hook
  guarded : Option ℕ → Hook

pub record StateHooks : Type 0 where
  pub on_created : Hook
  pub on_started : Hook
  pub on_done : Hook
  pub on_failed : Hook
  pub on_pending : Hook
  pub on_canceled : Hook

pub data StateHookOpt : Type 0 where
  when_created when_started when_done : Option ℕ → StateHookOpt
  when_failed when_pending when_canceled : Option ℕ → StateHookOpt

unfoldable pub new_noop_hooks : StateHooks
new_noop_hooks = record {
  on_created = noop;
  on_started = noop;
  on_done = noop;
  on_failed = noop;
  on_pending = noop;
  on_canceled = noop;
}

unfoldable pub apply_hook : StateHookOpt → StateHooks → StateHooks
apply_hook (when_created fn) h = record h { on_created = guarded fn }
apply_hook (when_started fn) h = record h { on_started = guarded fn }
apply_hook (when_done fn) h = record h { on_done = guarded fn }
apply_hook (when_failed fn) h = record h { on_failed = guarded fn }
apply_hook (when_pending fn) h = record h { on_pending = guarded fn }
apply_hook (when_canceled fn) h = record h { on_canceled = guarded fn }

unfoldable pub apply_hooks : List StateHookOpt → StateHooks → StateHooks
apply_hooks [] h = h
apply_hooks (o ∷ os) h = apply_hooks os (apply_hook o h)

unfoldable pub new_state_hooks : List StateHookOpt → StateHooks
new_state_hooks opts = apply_hooks opts new_noop_hooks

-- The hook that the entry of a state calls.
unfoldable pub hook_of : State → StateHooks → Hook
hook_of created h = h.on_created
hook_of pending h = h.on_pending
hook_of started h = h.on_started
hook_of done h = h.on_done
hook_of failed h = h.on_failed
hook_of canceled h = h.on_canceled

-- Whether a panic reaches the caller of a function, by which functions panic; nil does.
abbrev pub panics : (ℕ → Bool) → Option ℕ → Bool
panics bad none = true
panics bad (some fn) = bad fn

-- A call of a hook: whether a panic was recovered, and whether one gets out.
unfoldable pub call : (ℕ → Bool) → Hook → Bool × Bool
call bad noop = (false, false)
call bad (guarded fn) = (panics bad fn, false)

-- What an option sets for a state.
abbrev pub sets : State → StateHookOpt → Option Hook
sets created (when_created fn) = some (guarded fn)
sets pending (when_pending fn) = some (guarded fn)
sets started (when_started fn) = some (guarded fn)
sets done (when_done fn) = some (guarded fn)
sets failed (when_failed fn) = some (guarded fn)
sets canceled (when_canceled fn) = some (guarded fn)
sets s o = none

-- The last option for a state, or what there was before.
abbrev pub last_set : State → Hook → List StateHookOpt → Hook
last_set s h [] = h
last_set s h (o ∷ os) = last_set s (elim (sets s o) [ none ↦ h | some k ↦ k ]) os

apply_hook-sets :
    (s : State) (o : StateHookOpt) (h : StateHooks)
    → hook_of s (apply_hook o h) ≡ (elim (sets s o) [ none ↦ hook_of s h | some k ↦ k ])
unfolding hook_of apply_hook
apply_hook-sets created (when_created fn) h = refl
apply_hook-sets created (when_started fn) h = refl
apply_hook-sets created (when_done fn) h = refl
apply_hook-sets created (when_failed fn) h = refl
apply_hook-sets created (when_pending fn) h = refl
apply_hook-sets created (when_canceled fn) h = refl
apply_hook-sets pending (when_created fn) h = refl
apply_hook-sets pending (when_started fn) h = refl
apply_hook-sets pending (when_done fn) h = refl
apply_hook-sets pending (when_failed fn) h = refl
apply_hook-sets pending (when_pending fn) h = refl
apply_hook-sets pending (when_canceled fn) h = refl
apply_hook-sets started (when_created fn) h = refl
apply_hook-sets started (when_started fn) h = refl
apply_hook-sets started (when_done fn) h = refl
apply_hook-sets started (when_failed fn) h = refl
apply_hook-sets started (when_pending fn) h = refl
apply_hook-sets started (when_canceled fn) h = refl
apply_hook-sets done (when_created fn) h = refl
apply_hook-sets done (when_started fn) h = refl
apply_hook-sets done (when_done fn) h = refl
apply_hook-sets done (when_failed fn) h = refl
apply_hook-sets done (when_pending fn) h = refl
apply_hook-sets done (when_canceled fn) h = refl
apply_hook-sets failed (when_created fn) h = refl
apply_hook-sets failed (when_started fn) h = refl
apply_hook-sets failed (when_done fn) h = refl
apply_hook-sets failed (when_failed fn) h = refl
apply_hook-sets failed (when_pending fn) h = refl
apply_hook-sets failed (when_canceled fn) h = refl
apply_hook-sets canceled (when_created fn) h = refl
apply_hook-sets canceled (when_started fn) h = refl
apply_hook-sets canceled (when_done fn) h = refl
apply_hook-sets canceled (when_failed fn) h = refl
apply_hook-sets canceled (when_pending fn) h = refl
apply_hook-sets canceled (when_canceled fn) h = refl

apply_hooks-last_set :
    (s : State) (os : List StateHookOpt) (h : StateHooks)
    → hook_of s (apply_hooks os h) ≡ last_set s (hook_of s h) os
unfolding apply_hooks
apply_hooks-last_set s [] h = refl
apply_hooks-last_set s (o ∷ os) h =
    apply_hooks-last_set s os (apply_hook o h) ∙ ap (λ k. last_set s k os) (apply_hook-sets s o h)

nothing : (s : State) → hook_of s new_noop_hooks ≡ noop
unfolding hook_of new_noop_hooks
nothing created = refl
nothing pending = refl
nothing started = refl
nothing done = refl
nothing failed = refl
nothing canceled = refl

-- Of several options for one state the last one counts, and a state without one has a hook that
-- does nothing.
pub new_state_hooks-last_set :
    (s : State) (opts : List StateHookOpt) → hook_of s (new_state_hooks opts) ≡ last_set s noop opts
unfolding new_state_hooks
new_state_hooks-last_set s opts =
    apply_hooks-last_set s opts new_noop_hooks ∙ ap (λ k. last_set s k opts) (nothing s)
