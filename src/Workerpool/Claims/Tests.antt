-- ===== src/Workerpool/Claims/Tests.antt =====
-- Runs of the dispatcher.
use go_asynctasklib.Base.Table
use go_asynctasklib.Workerpool.Claims.{
  ClaimsConfig, Claims, Round, submit, subscribe, Outcome, apply_defaults, claim_arrives, round,
  new_claims, select, zero_or, offer, send_wait, delivered, failed,
}
use go_asynctasklib.Workerpool.Claims.Members.{
  apply_calls, apply_call, joins, IsWithin, leaves, new_claims-IsWithin,
}
use go_asynctasklib.Base.Int.{pos}
use go_asynctasklib.Base.{◌∷◌, [], some, true, ◌≡◌, ◌++◌, refl, Mem, none, arith}
use go_asynctasklib.Workerpool.Ticks.{present}
use go_asynctasklib.Base.Errors.{pool, ok, max_pool_size, submit_timeout}
use go_asynctasklib.Workerpool.Claims.Dispatch.{Explains, submit-Explains}

-- Every field at zero, but a size of two.
abbrev config : ClaimsConfig
config = record {
  size = pos 2;
  submit_backoff = pos 0;
  submit_timeout = pos 0;
  submit_attempts_per_sec = pos 0;
}

abbrev claims : Claims
claims = record { cfg = apply_defaults 4 config; subscribers = [] }

-- The claim of a worker that left, then one of worker 7, which takes the job.
abbrev stale : Round
stale = record {
  remaining = pos 900;
  subscribers = (7, present) ∷ [];
  arrival = claim_arrives (some 3);
  send_remaining = pos 900;
  accepts = true;
}

abbrev live : Round
live = record stale { arrival = claim_arrives (some 7) }

abbrev late : Round
late = record stale { remaining = pos 0 }

delivers : submit claims (stale ∷ live ∷ late ∷ []) ≡ some (delivered 7)
unfolding submit round select offer send_wait apply_defaults zero_or Table.lookup
delivers = refl

times_out : submit claims (stale ∷ late ∷ []) ≡ some (failed (pool submit_timeout))
unfolding submit round select offer send_wait apply_defaults zero_or Table.lookup
times_out = refl

-- A third worker is refused, and so is a second call for a worker that is there.
full :
    apply_calls (joins (some 1) ∷ joins (some 2) ∷ joins (some 3) ∷ []) claims
    ≡ record claims { subscribers = (1, present) ∷ (2, present) ∷ [] }
unfolding apply_calls apply_call subscribe apply_defaults zero_or Table.insert
full = refl

again :
    subscribe (some 1) (record claims { subscribers = (1, present) ∷ (2, present) ∷ [] })
    ≡ (record claims { subscribers = (1, present) ∷ (2, present) ∷ [] }, some (pool max_pool_size))
unfolding subscribe apply_defaults zero_or
again = refl

submit-Explains_example :
    (o : Outcome) × (submit claims ((stale ∷ live ∷ []) ++ (late ∷ [])) ≡ some o)
    × ((r : Round) × Mem r ((stale ∷ live ∷ []) ++ (late ∷ [])) × Explains r o)
submit-Explains_example = submit-Explains claims (stale ∷ live ∷ []) late (omega arith)

new_claims-IsWithin_example :
    (c : Claims) × (new_claims 4 (some config) ≡ ok c)
    × IsWithin (apply_calls (joins (some 1) ∷ joins none ∷ leaves (some 2) ∷ []) c)
new_claims-IsWithin_example =
    new_claims-IsWithin 4 config (joins (some 1) ∷ joins none ∷ leaves (some 2) ∷ [])
