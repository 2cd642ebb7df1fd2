-- ===== src/Semaphore.antt =====
-- pkg/semaphore: the permits that are out, which the channel's length counts. `none` is a panic or a
-- call that blocks.

use go_asynctasklib.Base.{
  ℕ, Option, Bool, if◌then◌else◌, ◌-◌, some, ltb, ◌==◌, suc, none, false, true,
}
use go_asynctasklib.Base.Int.{ℤ, pos, negsuc}
use go_asynctasklib.Base.Errors.{Error}

pub record Semaphore : Type 0 where
  pub limit : ℕ
  pub acquired : ℕ

-- `make` panics on a negative size.
unfoldable pub new_semaphore : ℤ → Option Semaphore
new_semaphore (pos n) = some (record { limit = n; acquired = 0 })
new_semaphore (negsuc n) = none

unfoldable pub acquire : Semaphore → Option Semaphore
acquire s = if ltb s.acquired s.limit then some (record s { acquired = suc s.acquired }) else none

unfoldable pub try_acquire : Semaphore → Semaphore × Bool
try_acquire s = elim (acquire s) [ none ↦ (s, false) | some t ↦ (t, true) ]

-- The context's error if its case of the select is taken.
unfoldable pub acquire_with_context : Option Error → Semaphore → Option (Semaphore × Option Error)
acquire_with_context (some e) s = some (s, some e)
acquire_with_context none s = elim (acquire s) [ none ↦ none | some t ↦ some (t, none) ]

unfoldable pub release : Semaphore → Option Semaphore
release s = if s.acquired == 0 then none else some (record s { acquired = s.acquired - 1 })

unfoldable pub available : Semaphore → ℕ
available s = s.limit - s.acquired
