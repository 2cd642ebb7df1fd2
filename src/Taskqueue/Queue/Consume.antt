-- ===== src/Taskqueue/Queue/Consume.antt =====
-- queue.go: Dequeue, its stream, and Redrive.
use go_asynctasklib.Base.{
  ℕ, Bool, true, false, Option, none, some, List, [], ◌∷◌, ◌==◌, if◌then◌else◌, ◌>>=◌,
}
use go_asynctasklib.Base.Int.{ℤ, pos, ◌+ℤ◌, ◌-ℤ◌, leb_ℤ}
use go_asynctasklib.Base.Errors.{
  Error, queue, queue_empty, queue_closed, lease_not_found, Result, ok, err,
}
use go_asynctasklib.Taskqueue.Types.{Task, Lease, DeadTask}
use go_asynctasklib.Taskqueue.Backend.{Backend}
use go_asynctasklib.Taskqueue.DeadLetter.{DeadLetter}
use go_asynctasklib.Taskqueue.Queue.{
  Queue, Claim, on_claim, on_enqueue, emit, settle, with_dead, announce,
}

-- `errors.Is(err, ErrQueueEmpty)`, for an error that a backend returns.
pub is_queue_empty : Error → Bool
is_queue_empty (queue queue_empty) = true
is_queue_empty _ = false

-- The loop of Redrive over the listed entries.
unfoldable pub find_dead : ℕ → List DeadTask → Option Task
find_dead id [] = none
find_dead id (x ∷ xs) = if x.task.id == id then some x.task else find_dead id xs

module _ (b : Backend) (d : DeadLetter) where
  -- What the world shows to one round of the loop: the context at the head and at the claim, the
  -- token and the time that the backend draws, the time after a failed claim, the context's error
  -- if it ends the wait, and what the other goroutines do to the backend during the wait.
  pub record Round : Type 0 where
    pub ctx : Option Error
    pub claim_ctx : Option Error
    pub token : ℕ
    pub claim_time : ℤ
    pub check_time : ℤ
    pub woken : Option Error
    pub others : b.State → b.State

  abbrev claimed : Queue b d → Lease → Queue b d × Result (Claim b d)
  claimed q l = (emit b d q (on_claim l), ok (record { lease = l; settled = false }))

  -- The part of a round behind a failed claim; `rest` are the rounds that follow.
  abbrev wait :
      ℤ
      → Round
      → Queue b d
      → Option (Queue b d × Result (Claim b d))
      → Option (Queue b d × Result (Claim b d))
  wait deadline r q rest =
      if leb_ℤ (deadline -ℤ r.check_time) (pos 0)
      then some (q, err (queue queue_empty))
      else (elim r.woken [ some e ↦ some (q, err e) | none ↦ rest ])

  -- `none` if the rounds that are given end while the call still waits, or if it panics.
  unfoldable pub poll : ℤ → List Round → Queue b d → Option (Queue b d × Result (Claim b d))
  unfolding is_queue_empty
  poll deadline [] q = none
  poll deadline (r ∷ rs) q = elim r.ctx [
    | some e ↦ some (q, err e)
    | none ↦ elim (b.claim r.claim_ctx r.token r.claim_time q.visibility q.backend) [
      | none ↦ none
      | some (s, ok l) ↦ some (claimed (record q { backend = s }) l)
      | some (s, err e) ↦
          let t = record q { backend = s } in
          let rest = poll deadline rs (record q { backend = r.others s }) in
          if is_queue_empty e then wait deadline r t rest else some (t, err e)
    ]
  ]

  unfoldable pub dequeue : ℤ → ℤ → List Round → Queue b d → Option (Queue b d × Result (Claim b d))
  unfolding poll
  dequeue now timeout rs q =
      if q.closed then some (q, err (queue queue_closed)) else poll (now +ℤ timeout) rs q

  -- Enqueue succeeded: announce the task and remove the dead entry.
  abbrev revive : Option Error → ℕ → Task → Queue b d × Option Error → Queue b d × Option Error
  revive ctx id t (q, some e) = (q, some e)
  revive ctx id t (q, none) = with_dead b d (emit b d q (on_enqueue t)) (d.remove ctx id q.dead)

  -- The two writes of Redrive, which holds no lock: the Enqueue with its event, and the Remove.
  unfoldable pub redrive_enqueue :
      Option Error → Task → Queue b d → Option (Queue b d × Option Error)
  redrive_enqueue ctx t q =
      settle b d q (b.enqueue ctx (some t) q.backend) >>= λ r. some (announce b d t r)

  unfoldable pub redrive_remove : Option Error → ℕ → Queue b d → Queue b d × Option Error
  redrive_remove ctx id q = with_dead b d q (d.remove ctx id q.dead)

  -- The two writes of OnDeadLetter, which holds no lock either: the Add, and the dropping Nack.
  unfoldable pub bury_add :
      Option Error → ℤ → Lease → Option Error → Queue b d → Queue b d × Option Error
  bury_add ctx now lease reason q = with_dead b d q (d.add ctx now (some lease.task) reason q.dead)

  unfoldable pub bury_drop : Option Error → ℕ → Queue b d → Option (Queue b d × Option Error)
  bury_drop ctx token q = settle b d q (b.nack ctx token false q.backend)

  -- Redrive with nobody in between. The context is read at the head, by List, Enqueue and Remove.
  unfoldable pub redrive :
      Option Error
      → Option Error
      → Option Error
      → Option Error
      → ℕ
      → Queue b d
      → Option (Queue b d × Option Error)
  unfolding find_dead
  redrive (some e) list_ctx enqueue_ctx remove_ctx id q = some (q, some e)
  redrive none list_ctx enqueue_ctx remove_ctx id q =
      if q.closed
      then some (q, some (queue queue_closed))
      else elim (d.list list_ctx (pos 0) q.dead) [
        | err e ↦ some (q, some e)
        | ok entries ↦ elim (find_dead id entries) [
          | none ↦ some (q, some (queue lease_not_found))
          | some t ↦ settle b d q (b.enqueue enqueue_ctx (some t) q.backend) >>= λ r.
              some (revive remove_ctx id t r)
        ]
      ]
