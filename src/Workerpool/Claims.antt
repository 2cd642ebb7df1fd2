-- ===== src/Workerpool/Claims.antt =====
-- pkg/workerpool/claims.go: the dispatcher that hands jobs to the workers that claim them.
pub mod Dispatch
pub mod Members
mod Tests
use go_asynctasklib.Base.Table
use go_asynctasklib.Base.Int.{ℤ, eqb_ℤ, leb_ℤ, ltb_ℤ, pos}
use go_asynctasklib.Base.{ℕ, List, Option, if◌then◌else◌, some, none, Bool, length, ◌==◌, ◌∷◌, []}
use go_asynctasklib.Base.Errors.{
  Error, Result, err, pool, wrapped, invalid_worker, dispatcher_closed, nil_value, ok,
  max_pool_size, no_workers, submit_timeout,
}
use go_asynctasklib.Workerpool.Ticks.{Present, present}

-- ClaimsConfig without Name, a label, and BackoffFactor, which nothing reads but its default.
pub record ClaimsConfig : Type 0 where
  pub size : ℤ
  pub submit_backoff : ℤ
  pub submit_timeout : ℤ
  pub submit_attempts_per_sec : ℤ

unfoldable pub zero_or : ℤ → ℤ → ℤ
zero_or default value = if eqb_ℤ value (pos 0) then default else value

unfoldable pub apply_defaults : ℕ → ClaimsConfig → ClaimsConfig
apply_defaults cpus c = record {
  size = (if leb_ℤ c.size (pos 0) then pos cpus else c.size);
  submit_backoff = zero_or (pos 50000000) c.submit_backoff;
  submit_timeout = zero_or (pos 1000000000) c.submit_timeout;
  submit_attempts_per_sec =
      (if leb_ℤ c.submit_attempts_per_sec (pos 0) then pos 5 else c.submit_attempts_per_sec);
}

-- The subscribers by ID.
pub record Claims : Type 0 where
  pub cfg : ClaimsConfig
  pub subscribers : List (ℕ × Present)

unfoldable pub new_claims : ℕ → Option ClaimsConfig → Result Claims
new_claims cpus none = err (wrapped (pool nil_value))
new_claims cpus (some cfg) = ok (record { cfg = apply_defaults cpus cfg; subscribers = [] })

-- A nil worker is `none`.
unfoldable pub subscribe : Option ℕ → Claims → Claims × Option Error
subscribe none c = (c, some (pool invalid_worker))
subscribe (some w) c =
    if leb_ℤ c.cfg.size (pos (length c.subscribers))
    then (c, some (pool max_pool_size))
    else (record c { subscribers = Table.insert w present c.subscribers }, none)

unfoldable pub unsubscribe : Option ℕ → Claims → Claims × Option Error
unsubscribe none c = (c, none)
unsubscribe (some w) c = elim (Table.lookup w c.subscribers) [
  | none ↦ (c, none)
  | some _ ↦ (record c { subscribers = Table.delete w c.subscribers }, none)
]

-- The case of the outer select that fires: the job's context is done, the time is over, or a claim
-- with a worker's ID arrives, `none` when the channel is closed.
pub data Arrival : Type 0 where
  job_done : Error → Arrival
  time_over : Arrival
  claim_arrives : Option ℕ → Arrival

-- What one round of the loop reads: the time left at its head and after a claim, the subscribers,
-- which the workers change meanwhile, the case of the select, and whether the worker takes the job
-- before the wait ends.
pub record Round : Type 0 where
  pub remaining : ℤ
  pub subscribers : List (ℕ × Present)
  pub arrival : Arrival
  pub send_remaining : ℤ
  pub accepts : Bool

-- The end of the loop: the worker that has the job, or the error.
pub data Outcome : Type 0 where
  delivered : ℕ → Outcome
  failed : Error → Outcome

unfoldable pub send_wait : Claims → Round → ℤ
send_wait c r =
    if ltb_ℤ r.send_remaining c.cfg.submit_backoff then r.send_remaining else c.cfg.submit_backoff

-- A claim of a worker: the outcome, or `none` to go round again.
unfoldable pub offer : Claims → Round → ℕ → Option Outcome
offer c r w = elim (Table.lookup w r.subscribers) [
  | none ↦ none
  | some _ ↦
      if leb_ℤ (send_wait c r) (pos 0)
      then none
      else (if r.accepts then some (delivered w) else none)
]

-- The outer select, by its case.
unfoldable pub select : Claims → Round → Arrival → Option Outcome
select c r (job_done e) = some (failed e)
select c r time_over = none
select c r (claim_arrives none) = some (failed (pool dispatcher_closed))
select c r (claim_arrives (some w)) = offer c r w

unfoldable pub round : Claims → Round → Option Outcome
round c r =
    if leb_ℤ r.remaining (pos 0)
    then some (failed (pool (if length r.subscribers == 0 then no_workers else submit_timeout)))
    else select c r r.arrival

-- `none` if the rounds end while the call still waits.
unfoldable pub submit : Claims → List Round → Option Outcome
submit c [] = none
submit c (r ∷ rs) = let rest = submit c rs in elim (round c r) [ none ↦ rest | some o ↦ some o ]
