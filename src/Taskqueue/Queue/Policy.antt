-- ===== src/Taskqueue/Queue/Policy.antt =====
-- The retry and dead-letter policy of `route`, over any backend that keeps its contract.
use go_asynctasklib.Base.{◌≡◌, false, Option, none, some, ◌∷◌, arith, ◌⊎◌, Bool-cases, inl, inr}
use go_asynctasklib.Base.Int.{ℤ, pos, ◌≤ℤ◌, ◌<ℤ◌, ltb_ℤ}
use go_asynctasklib.Base.Errors.{Error, queue, lease_not_found}
use go_asynctasklib.Taskqueue.Types.{Lease}
use go_asynctasklib.Taskqueue.Backend.{Backend, View, Implements, Holding, Moves}
use go_asynctasklib.Taskqueue.DeadLetter.{DeadLetter}
use go_asynctasklib.Taskqueue.Queue.{Queue, route, on_retry, on_dead_letter}

module _ (b : Backend) (v : View b) (good : Implements b v) (d : DeadLetter) where
  -- Below the ceiling a failed or expired lease goes back to the waiting jobs with its count, the
  -- dead letters are left alone, and one OnRetry event is emitted.
  pub route_retries :
      (now : ℤ) (l : Lease) (reason : Option Error) (q : Queue b d) (h : Holding)
      → v.Valid q.backend
      → pos l.attempt <ℤ q.max_attempts
      → v.held q.backend l.token ≡ some h
      → (s : b.State) × (route b d none none now l reason q
          ≡ some (record q { backend = s; log = on_retry l.task l.attempt ∷ q.log }, none))
        × Moves b v q.backend s (h.job ∷ v.ready q.backend) l.token none
  unfolding route
  route_retries now l reason q h ok below e =
      let (s, r, m) = good.nack_requeues q.backend l.token h ok e in (s, ground (arith, r), m)

  -- At the ceiling, or above it, the task is added to the dead letters with the reason and the
  -- lease is dropped: nothing waits again, and one OnDeadLetter event is emitted.
  pub route_buries :
      (now : ℤ) (l : Lease) (reason : Option Error) (q : Queue b d) (h : Holding) (dead : d.Store)
      → v.Valid q.backend
      → q.max_attempts ≤ℤ pos l.attempt
      → v.held q.backend l.token ≡ some h
      → d.add none now (some l.task) reason q.dead ≡ (dead, none)
      → (s : b.State) × (route b d none none now l reason q
          ≡ some (
            record q { backend = s; dead = dead; log = on_dead_letter l.task reason ∷ q.log },
            none,
          ))
        × Moves b v q.backend s (v.ready q.backend) l.token none
  unfolding route
  route_buries now l reason q h dead ok above e f =
      let (s, r, m) = good.nack_drops q.backend l.token h ok e in (s, ground (arith, r), m)

  -- A failed or expired lease that the backend holds, on a store that can add its task: below the
  -- ceiling the job goes back to the waiting ones with its count, the dead letters are left alone, and
  -- one OnRetry event is emitted; at the ceiling, or above it, the task is added to the dead letters
  -- with the reason, the lease is dropped, nothing waits again, and one OnDeadLetter event is emitted.
  pub route_settles :
      (now : ℤ) (l : Lease) (reason : Option Error) (q : Queue b d) (h : Holding) (dead : d.Store)
      → v.Valid q.backend
      → v.held q.backend l.token ≡ some h
      → d.add none now (some l.task) reason q.dead ≡ (dead, none)
      → ((pos l.attempt <ℤ q.max_attempts)
          × ((s : b.State) × (route b d none none now l reason q
                ≡ some (record q { backend = s; log = on_retry l.task l.attempt ∷ q.log }, none))
              × Moves b v q.backend s (h.job ∷ v.ready q.backend) l.token none))
        ⊎ ((q.max_attempts ≤ℤ pos l.attempt)
            × ((s : b.State) × (route b d none none now l reason q
                  ≡ some (
                    record q {
                      backend = s;
                      dead = dead;
                      log = on_dead_letter l.task reason ∷ q.log;
                    },
                    none,
                  ))
                × Moves b v q.backend s (v.ready q.backend) l.token none))
  route_settles now l reason q h dead ok e f =
      elim (Bool-cases (ltb_ℤ (pos l.attempt) q.max_attempts)) [
        | inl p ↦
            let below : pos l.attempt <ℤ q.max_attempts = ground (arith, p) in
            inl (below, route_retries now l reason q h ok below e)
        | inr p ↦
            let above : q.max_attempts ≤ℤ pos l.attempt = ground (arith, p) in
            inr (above, route_buries now l reason q h dead ok above e f)
      ]

  -- A lease that the backend no longer holds, at the ceiling: the call reports ErrLeaseNotFound and
  -- leaves the backend alone, but the task has been added to the dead letters all the same.
  pub route_stale :
      (now : ℤ) (l : Lease) (reason : Option Error) (q : Queue b d) (dead : d.Store)
      → q.max_attempts ≤ℤ pos l.attempt
      → v.held q.backend l.token ≡ none
      → d.add none now (some l.task) reason q.dead ≡ (dead, none)
      → route b d none none now l reason q
        ≡ some (
          record q { dead = dead; log = on_dead_letter l.task reason ∷ q.log },
          some (queue lease_not_found),
        )
  unfolding route
  route_stale now l reason q dead above e f =
      ground (arith, good.nack_missing q.backend l.token false e)

  -- If Add fails, the lease stays where it is, to be swept again.
  pub route-add_fails :
      (now : ℤ) (l : Lease) (reason : Option Error) (q : Queue b d) (dead : d.Store) (e : Error)
      → q.max_attempts ≤ℤ pos l.attempt
      → d.add none now (some l.task) reason q.dead ≡ (dead, some e)
      → route b d none none now l reason q
        ≡ some (record q { dead = dead; log = on_dead_letter l.task reason ∷ q.log }, some e)
  unfolding route
  route-add_fails now l reason q dead e above f = ground arith
