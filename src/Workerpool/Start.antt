-- ===== src/Workerpool/Start.antt =====
-- pkg/workerpool/pool.go: New, with the options, createWorkers and joinInitial.
mod Joining
pub mod Ready
mod Tests
use go_asynctasklib.Base.Errors.{Error, Result, ok, err, pool, joined, message, invalid_pool}
use go_asynctasklib.Workerpool.Claims.{Claims, ClaimsConfig, new_claims}
use go_asynctasklib.Workerpool.Claims as Claims
use go_asynctasklib.Workerpool.Config.{AutoScaleConfig, scale_defaults, validate, positive_or}
use go_asynctasklib.Workerpool.Worker.{Worker, new_worker, join}
use go_asynctasklib.Base.Table
use go_asynctasklib.Base.Int.{ℤ, pos, pos_part, eqb_ℤ}
use go_asynctasklib.Base.{
  Option, List, Bool, ◌∷◌, ℕ, [], if◌then◌else◌, some, suc, false, true, zero, none,
}
use go_asynctasklib.Workerpool.Ticks.{Present, present}

-- RateLimit is a float64, which only the rate limiter reads: `R`, with its test and its default.
pub record PoolConfig (R : Type 0) : Type 0 where
  pub claims : ClaimsConfig
  pub mode : ℤ
  pub rate_limit : R
  pub backlog : ℤ
  pub auto_scale : AutoScaleConfig

abbrev pub mode_fixed_size : ℤ
mode_fixed_size = pos 0

abbrev pub mode_auto_scale : ℤ
mode_auto_scale = pos 1

-- A nil config is `none`; of a handler and an observer, whether they are set.
pub data PoolOption (R : Type 0) : Type 0 where
  with_config : Option (PoolConfig R) → PoolOption R
  with_handler with_events : Bool → PoolOption R

pub record Settings (R : Type 0) : Type 0 where
  pub cfg : Option (PoolConfig R)
  pub handler_set : Bool
  pub events_set : Bool

-- What joinInitial has done: the workers, the dispatcher and the set of the joined IDs.
pub record Initial (J : Type 0) : Type 0 where
  pub workers : List (Worker J)
  pub claims : Claims
  pub joined_ids : List (ℕ × Present)

pub record Started (R J : Type 0) : Type 0 where
  pub cfg : PoolConfig R
  pub initial : Initial J

module _ {R : Type 0} where
  unfoldable pub apply_option : PoolOption R → Settings R → Settings R
  apply_option (with_config c) s = record s { cfg = c }
  apply_option (with_handler h) s = record s { handler_set = h }
  apply_option (with_events e) s = record s { events_set = e }

  unfoldable pub apply_options : List (PoolOption R) → Settings R → Settings R
  apply_options [] s = s
  apply_options (o ∷ os) s = apply_options os (apply_option o s)

  unfoldable pub apply_defaults : (R → Bool) → R → ℕ → PoolConfig R → PoolConfig R
  apply_defaults is_positive default_rate cpus c = record c {
    claims = Claims.apply_defaults cpus c.claims;
    rate_limit = (if is_positive c.rate_limit then c.rate_limit else default_rate);
    backlog = positive_or (pos 1000) c.backlog;
  }

module _ {J : Type 0} where
  unfoldable pub add_worker :
      Result (Worker J) → Result (List (Worker J)) → Result (List (Worker J))
  add_worker (err e) r = err e
  add_worker (ok w) (err e) = err e
  add_worker (ok w) (ok ws) = ok (w ∷ ws)

  -- The loop over the IDs from `i` on, `n` of them.
  unfoldable pub create_workers : ℤ → ℕ → ℕ → Result (List (Worker J))
  create_workers now i zero = ok []
  create_workers now i (suc n) =
      add_worker
        (new_worker now (some (record { id = i; idle_timeout = pos 0; handler_set = true })))
        (create_workers now (suc i) n)

  unfoldable pub put_worker : Worker J → Result (Initial J) → Result (Initial J)
  put_worker w (err e) = err e
  put_worker w (ok r) = ok (record r { workers = w ∷ r.workers })

  -- What follows a call of worker.join; the dispatcher is the one that it was given.
  unfoldable pub join_next :
      (Claims → List (ℕ × Present) → Result (Initial J))
      → List (ℕ × Present)
      → Worker J × Option Claims × Option Error
      → Result (Initial J)
  join_next rest j (w, c, some e) = err e
  join_next rest j (w, none, none) = err (pool invalid_pool)
  join_next rest j (w, some c, none) = put_worker w (rest c (Table.insert w.id present j))

  -- The loop of joinInitial over the first `n` workers; the first argument is what the pool's
  -- context returns to the join of a worker.
  unfoldable pub join_initial :
      (ℕ → Option Error)
      → ℤ
      → ℕ
      → List (Worker J)
      → Claims
      → List (ℕ × Present)
      → Result (Initial J)
  join_initial ctx now zero ws c j = ok (record { workers = ws; claims = c; joined_ids = j })
  join_initial ctx now (suc n) [] c j = ok (record { workers = []; claims = c; joined_ids = j })
  join_initial ctx now (suc n) (w ∷ ws) c j =
      join_next (λ d k. join_initial ctx now n ws d k) j (join (some (ctx w.id)) now (some c) w)

-- The construction behind the options, for what New reads of its surroundings.
module _ {R J : Type 0} (cpus : ℕ) (now : ℤ) (ctx : ℕ → Option Error) where
  unfoldable pub started : PoolConfig R → Result (Initial J) → Result (Started R J)
  started c (err e) = err e
  started c (ok r) = ok (record { cfg = c; initial = r })

  -- The switch on the mode.
  unfoldable pub join_mode : PoolConfig R → Claims → List (Worker J) → Result (Started R J)
  join_mode c d ws =
      if eqb_ℤ c.mode mode_fixed_size
      then started c (join_initial ctx now (pos_part c.claims.size) ws d [])
      else (if eqb_ℤ c.mode mode_auto_scale
          then started c (join_initial ctx now (pos_part c.auto_scale.min_size) ws d [])
          else err (joined (pool invalid_pool) (message 4)))

  unfoldable pub with_workers :
      PoolConfig R → Claims → Result (List (Worker J)) → Result (Started R J)
  with_workers c d (err e) = err e
  with_workers c d (ok ws) = join_mode c d ws

  -- newClaims applies the defaults to the config that the pool shares with it.
  unfoldable pub with_claims : PoolConfig R → Result Claims → Result (Started R J)
  with_claims c (err e) = err e
  with_claims c (ok d) =
      with_workers (record c { claims = d.cfg }) d (create_workers now 1 (pos_part d.cfg.size))

  unfoldable pub build : PoolConfig R → Result (Started R J)
  build c = with_claims c (new_claims cpus (some c.claims))

  -- The block for the auto-scale mode, by what the validation returns.
  unfoldable pub scaled : PoolConfig R → AutoScaleConfig → Option Error → Result (Started R J)
  scaled c a (some e) = err (joined (pool invalid_pool) e)
  scaled c a none =
      build (record c { auto_scale = a; claims = record c.claims { size = a.max_size } })

  unfoldable pub configure : PoolConfig R → Result (Started R J)
  configure c =
      let a = scale_defaults cpus c.auto_scale in
      if eqb_ℤ c.mode mode_auto_scale then scaled c a (validate a) else build c

  -- The tests for the handler and the config.
  unfoldable pub require : (R → Bool) → R → Bool → Option (PoolConfig R) → Result (Started R J)
  require is_positive default_rate false c = err (joined (pool invalid_pool) (message 2))
  require is_positive default_rate true none = err (joined (pool invalid_pool) (message 3))
  require is_positive default_rate true (some c) =
      configure (apply_defaults is_positive default_rate cpus c)

  -- New by its context, nil as the outer `none`, and the options.
  unfoldable pub new :
      (R → Bool) → R → Option (Option Error) → List (PoolOption R) → Result (Started R J)
  new is_positive default_rate none opts = err (joined (pool invalid_pool) (message 1))
  new is_positive default_rate (some (some e)) opts = err e
  new is_positive default_rate (some none) opts =
      let s = apply_options opts (record { cfg = none; handler_set = false; events_set = false }) in
      require is_positive default_rate s.handler_set s.cfg
