-- ===== src/Workerpool/Closing.antt =====
-- pkg/workerpool/pool.go: the end of close, which lets the joined workers leave one by one.
pub mod Leaves
mod Tests
use go_asynctasklib.Workerpool.Worker.{Worker, begin_leave, end_leave}
use go_asynctasklib.Workerpool.Claims.{Claims}
use go_asynctasklib.Base.Table
use go_asynctasklib.Base.{◌∷◌, [], none, some, true, false, ◌>>=◌}
use go_asynctasklib.Base.{Bool, List, ℕ, Option, some, none}
use go_asynctasklib.Base.Int.{ℤ}
use go_asynctasklib.Workerpool.Ticks.{Present}
use go_asynctasklib.Base.Errors.{Error}

module _ {J : Type 0} where
  -- leave behind its unsubscription: the select, unless there was an error.
  unfoldable pub wait_end :
      Bool → ℤ → Claims → Worker J × Option Claims × Option Error → Worker J × Claims × Option Error
  wait_end ended timeout c (w, none, e) = (w, c, e)
  wait_end ended timeout c (w, some d, some e) = (w, d, some e)
  wait_end ended timeout c (w, some d, none) = let r = end_leave ended timeout w in (r.0, d, r.1)

  -- One call of leave, whose loop is over before the timeout or not; `none` is a panic.
  unfoldable pub leave : Bool → ℤ → Claims → Worker J → Option (Worker J × Claims × Option Error)
  leave ended timeout c w = elim (begin_leave (some c) w) [
    | none ↦ none
    | some r ↦ some (wait_end ended timeout c r)
  ]

  -- The workers whose ID is in the set.
  unfoldable pub joined_workers : List (ℕ × Present) → List (Worker J) → List (Worker J)
  joined_workers ids [] = []
  joined_workers ids (w ∷ ws) =
      let rest = joined_workers ids ws in
      elim (Table.lookup w.id ids) [ none ↦ rest | some _ ↦ w ∷ rest ]

  -- The loop over them, which drops the errors; `ended` says which loops are over in time.
  unfoldable pub leave_all :
      (ℕ → Bool) → ℤ → List (Worker J) → Claims → Option (List (Worker J) × Claims)
  leave_all ended timeout [] c = some ([], c)
  leave_all ended timeout (w ∷ ws) c = leave (ended w.id) timeout c w >>= λ r.
      leave_all ended timeout ws r.1 >>= λ s. some (r.0 ∷ s.0, s.1)

  -- close behind the dispatcher and the autoscaler.
  unfoldable pub close_workers :
      (ℕ → Bool)
      → ℤ
      → List (ℕ × Present)
      → List (Worker J)
      → Claims
      → Option (List (Worker J) × Claims)
  close_workers ended timeout ids ws c = leave_all ended timeout (joined_workers ids ws) c
