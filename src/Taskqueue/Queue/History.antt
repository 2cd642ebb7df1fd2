-- ===== src/Taskqueue/Queue/History.antt =====
-- The calls that producers, consumers and the reaper make, in any order: consumers may settle a
-- lease late, and the reaper may route a lease that has been settled since it was listed. Contexts
-- are live; a token that the backend draws has not been drawn before, as with a random UUID.
use mathlib.Core.List.{Memᴰ}
use go_asynctasklib.Base.{ℕ, ◌≡◌, ◌≢◌, Option, none, some, List, [], ◌∷◌, ◌++◌}
use go_asynctasklib.Base.Int.{ℤ, pos}
use go_asynctasklib.Base.Errors.{Error, ok}
use go_asynctasklib.Taskqueue.Types.{Task, Lease, DeadTask}
use go_asynctasklib.Taskqueue.Backend.{Backend, View}
use go_asynctasklib.Taskqueue.DeadLetter.{DeadLetter}
use go_asynctasklib.Taskqueue.Queue.{Queue, Claim, enqueue, ack, nack, sweep_one}
use go_asynctasklib.Taskqueue.Queue.Consume.{
  Round, dequeue, redrive, redrive_enqueue, redrive_remove, bury_add, bury_drop, find_dead,
}

abbrev pub IsFresh : ℕ → List Lease → Type 0
IsFresh k [] = Unit {0}
IsFresh k (l ∷ ls) = (l.token ≢ k) × IsFresh k ls

-- The ID that a call of Ack takes away: none, if it returns an error.
abbrev pub acked_by : Option Error → ℕ → Option ℕ
acked_by none id = some id
acked_by (some e) id = none

abbrev pub ids : Option ℕ → List ℕ
ids none = []
ids (some id) = id ∷ []

module _ (b : Backend) (v : View b) (d : DeadLetter) where
  -- The queue, and every lease that was handed to a consumer or listed by the reaper so far.
  pub record World : Type 0 where
    pub queue : Queue b d
    pub leases : List Lease

  -- One call, which returns, or one of the two writes of a Redrive, or of a burial by Nack or the
  -- reaper, that others come between; what the call has read before them is not asked for. `gone` are
  -- the IDs of the claims that it acknowledges with nil, of the dead letters that such a Redrive
  -- removes, and of the leases that such a burial drops with no dead letter of the ID left.
  pub data Step (s : World) (gone : List ℕ) (u : World) : Type 0 where
    submits :
        (t : Task) (e : Option Error)
        → enqueue b d none none (some t) s.queue ≡ some (u.queue, e)
        → u.leases ≡ s.leases
        → gone ≡ []
        → Step s gone u
    delivers :
        (now timeout : ℤ) (r : Round b d) (c : Claim b d)
        → dequeue b d now timeout (r ∷ []) s.queue ≡ some (u.queue, ok c)
        → r.ctx ≡ none
        → r.claim_ctx ≡ none
        → v.held s.queue.backend r.token ≡ none
        → IsFresh r.token s.leases
        → u.leases ≡ c.lease ∷ s.leases
        → gone ≡ []
        → Step s gone u
    lists :
        (now : ℤ) (ls : List Lease)
        → b.reap_expired none now s.queue.backend ≡ ok ls
        → u.queue ≡ s.queue
        → u.leases ≡ ls ++ s.leases
        → gone ≡ []
        → Step s gone u
    sweeps :
        (now : ℤ) (l : Lease)
        → Memᴰ l s.leases
        → sweep_one b d none none now l s.queue ≡ some u.queue
        → u.leases ≡ s.leases
        → gone ≡ []
        → Step s gone u
    nacks :
        (now : ℤ) (reason : Option Error) (c c' : Claim b d) (e : Option Error)
        → Memᴰ c.lease s.leases
        → nack b d none none now reason c s.queue ≡ some (c', u.queue, e)
        → u.leases ≡ s.leases
        → gone ≡ []
        → Step s gone u
    acks :
        (c c' : Claim b d) (e : Option Error)
        → Memᴰ c.lease s.leases
        → ack b d none c s.queue ≡ some (c', u.queue, e)
        → u.leases ≡ s.leases
        → gone ≡ ids (acked_by e c.lease.task.id)
        → Step s gone u
    redrives :
        (id : ℕ) (e : Option Error)
        → redrive b d none none none none id s.queue ≡ some (u.queue, e)
        → u.leases ≡ s.leases
        → gone ≡ []
        → Step s gone u
    redrive_enqueues :
        (t : Task) (e : Option Error)
        → redrive_enqueue b d none t s.queue ≡ some (u.queue, e)
        → u.leases ≡ s.leases
        → gone ≡ []
        → Step s gone u
    redrive_removes :
        (id : ℕ) (e : Option Error)
        → redrive_remove b d none id s.queue ≡ (u.queue, e)
        → u.leases ≡ s.leases
        → gone ≡ id ∷ []
        → Step s gone u
    bury_adds :
        (now : ℤ) (l : Lease) (reason e : Option Error)
        → bury_add b d none now l reason s.queue ≡ (u.queue, e)
        → u.leases ≡ s.leases
        → gone ≡ []
        → Step s gone u
    bury_drops :
        (l : Lease) (t : Task) (entries : List DeadTask) (e : Option Error)
        → Memᴰ l s.leases
        → d.list none (pos 0) s.queue.dead ≡ ok entries
        → find_dead l.task.id entries ≡ some t
        → bury_drop b d none l.token s.queue ≡ some (u.queue, e)
        → u.leases ≡ s.leases
        → gone ≡ []
        → Step s gone u
    bury_drops_last :
        (l : Lease) (e : Option Error)
        → Memᴰ l s.leases
        → bury_drop b d none l.token s.queue ≡ some (u.queue, e)
        → u.leases ≡ s.leases
        → gone ≡ l.task.id ∷ []
        → Step s gone u

  -- Any number of calls, with all these IDs.
  pub data Steps (s : World) : List ℕ → World → Type 0 where
    start : Steps s [] s
    then :
        {m u : World} {done gone : List ℕ}
        → Steps s done m
        → Step m gone u
        → Steps s (gone ++ done) u
