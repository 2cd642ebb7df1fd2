-- ===== src/Workerpool/Pool.antt =====
-- pkg/workerpool/pool.go: Submit, Shutdown, GracefulShutdown and the dispatcher, as steps.
pub mod Dispatch
pub mod Shutdown
pub mod Drain
mod Tests
use go_asynctasklib.Base.Errors.{Error, pool, nil_context, pool_shutdown, submit_timeout}
use go_asynctasklib.Workerpool.Claims.{Claims, Round, Outcome, delivered, failed}
use go_asynctasklib.Base.{
  ℕ, Bool, Option, true, List, some, [], if◌then◌else◌, ◌∷◌, none, ltb, false, length, ◌++◌,
}

-- What Submit, the closing and the dispatcher share; `backlog` is the channel, oldest job first.
pub record Pool (J : Type 0) : Type 0 where
  pub claims : Claims
  pub capacity : ℕ
  pub backlog : List J
  pub reject : Bool
  pub shutdown : Bool
  pub canceled : Bool

-- The case of Submit's select that fires.
pub data Select : Type 0 where
  pool_done : Error → Select
  shutdown_seen time_over proceeds : Select

module _ {J : Type 0} where
  -- The switch at the head of Submit, by whether its context is set.
  unfoldable pub enter : Bool → Pool J → Option Error
  enter false p = some (pool nil_context)
  enter true p = if p.reject then some (pool pool_shutdown) else none

  -- The select of Submit; `none` is a send that blocks.
  unfoldable pub place : Select → J → Pool J → Option (Pool J × Option Error)
  place (pool_done e) t p = some (p, some e)
  place shutdown_seen t p = some (p, some (pool pool_shutdown))
  place time_over t p = some (p, some (pool submit_timeout))
  place proceeds t p =
      if ltb (length p.backlog) p.capacity
      then some (record p { backlog = p.backlog ++ (t ∷ []) }, none)
      else none

  -- The answer of the rate limiter, then the select.
  unfoldable pub limited : Option Error → Select → J → Pool J → Option (Pool J × Option Error)
  limited (some e) s t p = some (p, some e)
  limited none s t p = place s t p

  unfoldable pub submit : Bool → Option Error → Select → J → Pool J → Option (Pool J × Option Error)
  submit ctx_set limit s t p = elim (enter ctx_set p) [
    | some e ↦ some (p, some e)
    | none ↦ limited limit s t p
  ]

  -- The parts of close: the flag, the channel, and the cancel.
  unfoldable pub reject_calls : Pool J → Pool J
  reject_calls p = record p { reject = true }

  unfoldable pub close_shutdown : Pool J → Pool J
  close_shutdown p = record p { shutdown = true }

  unfoldable pub cancel : Pool J → Pool J
  cancel p = record p { canceled = true }

  -- The calls of DispatchError for the answer of the claims dispatcher.
  unfoldable pub dispatch_errors : J → Outcome → List (Error × J)
  dispatch_errors t (delivered w) = []
  dispatch_errors t (failed e) = (e, t) ∷ []
