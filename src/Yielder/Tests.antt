-- ===== src/Yielder/Tests.antt =====
-- Runs of a yielder of numbers.
use go_asynctasklib.Yielder.Generate
use go_asynctasklib.Yielder.Input
use go_asynctasklib.Base.{◌∷◌, none, some, ℕ, [], ◌≡◌, true, refl, arith, length, false, ◌≤◌, List}
use go_asynctasklib.Yielder.{
  Settings, new_yielder, Yielder, make, apply_options, fail, function, apply_option,
  require_generator, with_values, finish, generates, with_defaults, cancel, with_buffer, set_err,
  YielderOption,
}
use go_asynctasklib.Base.Int.{pos}
use go_asynctasklib.Base.Errors.{err, yield_error, wrapped, ok, nil_generator, stopped}

abbrev settings : Settings ℕ
settings = record {
  fn = some (function (generates (4 ∷ 5 ∷ []) none));
  timeout = pos 1000000000;
  buf = pos 1;
}

options_run : new_yielder none (with_values (4 ∷ 5 ∷ []) ∷ with_buffer (pos 0) ∷ []) ≡ ok settings
unfolding new_yielder apply_options apply_option require_generator with_defaults
options_run = refl

nil_run : new_yielder {A = ℕ} none [] ≡ err (wrapped (yield_error nil_generator))
unfolding new_yielder apply_options require_generator
nil_run = refl

abbrev values_option : List (YielderOption ℕ)
values_option = with_values (4 ∷ 5 ∷ []) ∷ []

-- The first value is sent and received, and the context ends before the second is.
abbrev cut_short : Yielder ℕ
cut_short = record {
  buf = 1;
  channel = [];
  closed = true;
  kept = some (yield_error stopped);
  canceled = true;
}

cut_short_reached :
    Generate.Reach (generates (4 ∷ 5 ∷ []) none) (make settings) cut_short (4 ∷ []) Generate.ended
unfolding make fail finish cancel set_err
cut_short_reached =
    Generate.later
      (Generate.later
        (Generate.later
          (Generate.later (Generate.later Generate.start (Generate.returned refl))
            (Generate.sent (omega arith)))
          (Generate.received refl))
        Generate.context_ends)
      (Generate.gave_up refl)

Reach-Accounts_example :
    Generate.Accounts (generates (4 ∷ 5 ∷ []) none) cut_short (4 ∷ []) Generate.ended
    × (length cut_short.channel ≤ 1)
Reach-Accounts_example =
    Generate.Reach-Accounts settings (generates (4 ∷ 5 ∷ []) none) cut_short (4 ∷ []) Generate.ended
      cut_short_reached

-- A value that was taken from the input is dropped when the context ends before it is sent.
abbrev dropped_flow : Input.Flow ℕ
dropped_flow = record {
  waiting = [];
  input_closed = false;
  taken = 7 ∷ [];
  received = [];
  dropped = 7 ∷ [];
}

abbrev dropped_yielder : Yielder ℕ
dropped_yielder = record {
  buf = 1;
  channel = [];
  closed = true;
  kept = some (wrapped (yield_error stopped));
  canceled = true;
}

dropped_reached : Input.Reach (make settings) (7 ∷ []) dropped_yielder dropped_flow Input.ended
unfolding make fail finish cancel set_err
dropped_reached =
    Input.later (Input.later (Input.later Input.start (Input.takes refl)) Input.context_ends)
      (Input.drops refl)

Reach-Accounts_input_example :
    Input.Accounts dropped_yielder dropped_flow Input.ended × (length dropped_yielder.channel ≤ 1)
Reach-Accounts_input_example =
    Input.Reach-Accounts_input settings (7 ∷ []) dropped_yielder dropped_flow Input.ended
      dropped_reached
