-- ===== src/Taskqueue/Queue.antt =====
-- queue.go: the queue over the interfaces Backend and DeadLetter. A hook of QueueEvents is a call
-- of the observer's code: the calls made so far stand in `log`, the last first. Each context is its
-- `Err()` at the moment of one reading, and each reading of the clock is an argument.
pub mod Consume
pub mod Policy
pub mod Claims
pub mod Dequeue
pub mod Presence
pub mod History
pub mod Effects
pub mod Calls
pub mod Feeds
mod Burials
pub mod Lossless
pub mod Stream
pub mod Sweeping
pub mod Reaper
use go_asynctasklib.Base.{
  ℕ, Bool, true, false, Option, none, some, List, [], ◌∷◌, if◌then◌else◌, ◌>>=◌,
}
use go_asynctasklib.Base.Int.{ℤ, pos, leb_ℤ}
use go_asynctasklib.Base.Errors.{
  Error, queue, task_nil, queue_closed, lease_expired, claim_settled, invalid_queue, joined,
  message, Result, ok, err,
}
use go_asynctasklib.Taskqueue.Types.{Task, Mode, mode_priority, Lease}
use go_asynctasklib.Taskqueue.Backend.{Backend}
use go_asynctasklib.Taskqueue.DeadLetter.{DeadLetter}

pub data Event : Type 0 where
  on_enqueue on_ack : Task → Event
  on_claim on_lease_expired : Lease → Event
  on_nack on_dead_letter : Task → Option Error → Event
  on_retry : Task → ℕ → Event

abbrev pub default_max_attempts : ℤ
default_max_attempts = pos 3

abbrev pub default_visibility_timeout : ℤ
default_visibility_timeout = pos 30_000_000_000

abbrev pub default_reap_interval : ℤ
default_reap_interval = pos 5_000_000_000

-- The fields that the options set; `none` for a field left nil.
pub record Options : Type 0 where
  pub mode : Mode
  pub max_attempts : ℤ
  pub visibility : ℤ
  pub reap_interval : ℤ

pub data QueueOption : Type 0 where
  with_mode : Mode → QueueOption
  with_max_attempts with_visibility_timeout with_reap_interval : ℤ → QueueOption

unfoldable pub apply_option : Options → QueueOption → Options
apply_option o (with_mode m) = record o { mode = m }
apply_option o (with_max_attempts n) = record o { max_attempts = n }
apply_option o (with_visibility_timeout t) = record o { visibility = t }
apply_option o (with_reap_interval t) = record o { reap_interval = t }

unfoldable pub apply_options : Options → List QueueOption → Options
apply_options o [] = o
apply_options o (x ∷ xs) = apply_options (apply_option o x) xs

abbrev pub positive_or : ℤ → ℤ → ℤ
positive_or n default = if leb_ℤ n (pos 0) then default else n

module _ (b : Backend) (d : DeadLetter) where
  pub record Queue : Type 0 where
    pub backend : b.State
    pub dead : d.Store
    pub log : List Event
    pub max_attempts : ℤ
    pub visibility : ℤ
    pub reap_interval : ℤ
    pub closed : Bool

  -- New, with the backend that `WithBackend` sets or that the mode selects, and the dead letters.
  -- The context is `none` if nil, and then its error. The reaper that New starts is in Reaper.
  unfoldable pub new :
      Option (Option Error) → (Mode → b.State) → d.Store → List QueueOption → Result Queue
  unfolding apply_options apply_option
  new none backend dead opts = err (joined (queue invalid_queue) (message 0))
  new (some (some e)) backend dead opts = err e
  new (some none) backend dead opts =
      let o =
        apply_options
          (record {
            mode = mode_priority;
            max_attempts = default_max_attempts;
            visibility = default_visibility_timeout;
            reap_interval = default_reap_interval;
          })
          opts in
      ok (record {
        backend = backend o.mode;
        dead = dead;
        log = [];
        max_attempts = positive_or o.max_attempts default_max_attempts;
        visibility = positive_or o.visibility default_visibility_timeout;
        reap_interval = positive_or o.reap_interval default_reap_interval;
        closed = false;
      })

  abbrev pub emit : Queue → Event → Queue
  emit q e = record q { log = e ∷ q.log }

  -- A call of the backend, whose state the queue holds.
  abbrev pub settle : Queue → Option (b.State × Option Error) → Option (Queue × Option Error)
  settle q none = none
  settle q (some (s, e)) = some (record q { backend = s }, e)

  -- The calls behind OnDeadLetter: Add, and if it succeeds, a dropping Nack.
  unfoldable pub bury : Option Error → ℕ → Queue × Option Error → Option (Queue × Option Error)
  bury ctx token (q, some e) = some (q, some e)
  bury ctx token (q, none) = settle q (b.nack ctx token false q.backend)

  abbrev pub with_dead : Queue → d.Store × Option Error → Queue × Option Error
  with_dead q (s, e) = (record q { dead = s }, e)

  -- `add_ctx` and `nack_ctx` are the context at its two readings, `now` the time of Add.
  unfoldable pub route :
      Option Error → Option Error → ℤ → Lease → Option Error → Queue → Option (Queue × Option Error)
  unfolding bury
  route add_ctx nack_ctx now lease reason q =
      if leb_ℤ q.max_attempts (pos lease.attempt)
      then (let r = emit q (on_dead_letter lease.task reason) in
          bury nack_ctx lease.token
            (with_dead r (d.add add_ctx now (some lease.task) reason r.dead)))
      else (let r = emit q (on_retry lease.task lease.attempt) in
          settle r (b.nack nack_ctx lease.token true r.backend))

  -- The body of the loop of `sweep`; the error of `route` is ignored.
  unfoldable pub sweep_one : Option Error → Option Error → ℤ → Lease → Queue → Option Queue
  unfolding route
  sweep_one add_ctx nack_ctx now lease q =
      route add_ctx nack_ctx now lease (some (queue lease_expired))
        (emit q (on_lease_expired lease))
      >>= λ r. some r.0

  unfoldable pub sweep_all : Option Error → ℤ → List Lease → Queue → Option Queue
  sweep_all ctx now [] q = some q
  sweep_all ctx now (l ∷ ls) q = sweep_one ctx ctx now l q >>= sweep_all ctx now ls

  -- One tick of the reaper, with nobody else at work and one value of the context throughout.
  unfoldable pub sweep : Option Error → ℤ → Queue → Option Queue
  sweep ctx now q = elim (b.reap_expired ctx now q.backend) [
    | err e ↦ some q
    | ok expired ↦ sweep_all ctx now expired q
  ]

  -- Close as far as the other calls see it. It then waits for the reaper, and returns its context's
  -- error if that ends first.
  unfoldable pub close : Option Error → Queue → Queue × Option Error
  close wait q = if q.closed then (q, none) else (record q { closed = true }, wait)

  abbrev pub announce : Task → Queue × Option Error → Queue × Option Error
  announce t (q, some e) = (q, some e)
  announce t (q, none) = (emit q (on_enqueue t), none)

  unfoldable pub enqueue :
      Option Error → Option Error → Option Task → Queue → Option (Queue × Option Error)
  enqueue (some e) ctx t q = some (q, some e)
  enqueue none ctx none q = some (q, some (queue (if q.closed then queue_closed else task_nil)))
  enqueue none ctx (some t) q =
      if q.closed
      then some (q, some (queue queue_closed))
      else (settle q (b.enqueue ctx (some t) q.backend) >>= λ r. some (announce t r))

  -- A claim is the lease and whether it is settled. Its queue is passed in.
  pub record Claim : Type 0 where
    pub lease : Lease
    pub settled : Bool

  unfoldable pub ack : Option Error → Claim → Queue → Option (Claim × Queue × Option Error)
  ack ctx c q =
      if c.settled
      then some (c, q, some (queue claim_settled))
      else (let r = emit q (on_ack c.lease.task) in
          settle r (b.ack ctx c.lease.token r.backend) >>= λ t.
          some (record c { settled = true }, t.0, t.1))

  unfoldable pub nack :
      Option Error
      → Option Error
      → ℤ
      → Option Error
      → Claim
      → Queue
      → Option (Claim × Queue × Option Error)
  unfolding route
  nack add_ctx nack_ctx now reason c q =
      if c.settled
      then some (c, q, some (queue claim_settled))
      else (route add_ctx nack_ctx now c.lease reason (emit q (on_nack c.lease.task reason))
          >>= λ t. some (record c { settled = true }, t.0, t.1))
