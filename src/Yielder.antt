-- ===== src/Yielder.antt =====
-- pkg/yielder/yielder.go: the options, newYielder, the error that is kept, and Stop. The goroutine
-- that generates is in the children: Generate for the values of a function, Input for a channel.
mod Errors
pub mod Generate
pub mod Input
pub mod Ready
mod Tests
use go_asynctasklib.Base.{ℕ, Option, none, some, List, [], ◌∷◌, Bool, true, false, if◌then◌else◌}
use go_asynctasklib.Base.Int.{ℤ, pos, pos_part, eqb_ℤ, leb_ℤ}
use go_asynctasklib.Base.Errors.{
  Error, yield_error, nil_generator, stopped, wrapped, joined, Result, ok, err,
}

-- How the call of a generator function ends: it panics, or returns values and an error.
pub data Generated (A : Type 0) : Type 0 where
  panics : Generated A
  generates : List A → Option Error → Generated A

-- The generator: a function, seen by how its call ends, or the loop over an input channel.
pub data Source (A : Type 0) : Type 0 where
  function : Generated A → Source A
  input : Source A

pub data YielderOption (A : Type 0) : Type 0 where
  with_timeout with_buffer : ℤ → YielderOption A
  with_generator_func : Option (Generated A) → YielderOption A
  with_values : List A → YielderOption A
  with_input_channel : YielderOption A

pub record Settings (A : Type 0) : Type 0 where
  pub fn : Option (Source A)
  pub timeout : ℤ
  pub buf : ℤ

-- A Yielder at run time: what its channel holds, oldest first, whether the channel is closed, the
-- error that `onceStop` let through, and whether the context has ended.
pub record Yielder (A : Type 0) : Type 0 where
  pub buf : ℕ
  pub channel : List A
  pub closed : Bool
  pub kept : Option Error
  pub canceled : Bool

module _ {A : Type 0} where
  unfoldable pub apply_option : YielderOption A → Settings A → Settings A
  apply_option (with_timeout t) y = record y { timeout = t }
  apply_option (with_buffer n) y = record y { buf = n }
  apply_option (with_generator_func none) y = record y { fn = none }
  apply_option (with_generator_func (some g)) y = record y { fn = some (function g) }
  apply_option (with_values vs) y = record y { fn = some (function (generates vs none)) }
  apply_option with_input_channel y = record y { fn = some input }

  unfoldable pub apply_options : List (YielderOption A) → Settings A → Settings A
  apply_options [] y = y
  apply_options (o ∷ os) y = apply_options os (apply_option o y)

  -- The zero values that newYielder replaces.
  unfoldable pub with_defaults : Settings A → Settings A
  with_defaults y = record y {
    timeout = (if eqb_ℤ y.timeout (pos 0) then pos 1000000000 else y.timeout);
    buf = (if leb_ℤ y.buf (pos 0) then pos 1 else y.buf);
  }

  -- The test for a generator, which is the second argument.
  unfoldable pub require_generator : Settings A → Option (Source A) → Result (Settings A)
  require_generator y none = err (wrapped (yield_error nil_generator))
  require_generator y (some g) = ok (with_defaults y)

  -- The context's error, then the options.
  unfoldable pub new_yielder : Option Error → List (YielderOption A) → Result (Settings A)
  new_yielder (some e) opts = err e
  new_yielder none opts =
      let y = apply_options opts (record { fn = none; timeout = pos 0; buf = pos 0 }) in
      require_generator y y.fn

  -- The Yielder that New makes of the settings, before its goroutine runs.
  unfoldable pub make : Settings A → Yielder A
  make y = record {
    buf = pos_part y.buf;
    channel = [];
    closed = false;
    kept = none;
    canceled = false;
  }

  unfoldable pub set_err : Error → Yielder A → Yielder A
  set_err e y = elim y.kept [ none ↦ record y { kept = some e } | some _ ↦ y ]

  unfoldable pub cancel : Yielder A → Yielder A
  cancel y = record y { canceled = true }

  unfoldable pub stop : Yielder A → Yielder A
  stop y = cancel (set_err (yield_error stopped) y)

  unfoldable pub stop_err : Option Error → Yielder A → Yielder A
  stop_err none y = y
  stop_err (some e) y = cancel (set_err (wrapped (joined (yield_error stopped) e)) y)

  -- The deferred end of generate: the cancel, and the close of both channels.
  unfoldable pub finish : Yielder A → Yielder A
  finish y = record (cancel y) { closed = true }

  -- The end with an error.
  unfoldable pub fail : Error → Yielder A → Yielder A
  fail e y = finish (set_err e y)
