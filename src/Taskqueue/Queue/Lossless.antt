-- ===== src/Taskqueue/Queue/Lossless.antt =====
-- At-least-once delivery over every history of calls.
use mathlib.Core.List.{Memᴰ, mem-append_left, mem-append_right, mem-cons_self}
use mathlib.Core.Logic.{∥∥₁_elim}
use mathlib.Core.Option.{some-injective}
use go_asynctasklib.Taskqueue.Backend.{Backend, View, Implements, AllDue}
use go_asynctasklib.Taskqueue.Queue.{enqueue, Queue}
use go_asynctasklib.Taskqueue.Queue.History.{
  acked_by, ids, redrive_enqueues, redrive_removes, bury_adds, bury_drops, bury_drops_last, World,
  Step, Steps, submits, delivers, lists, sweeps, nacks, acks, redrives, start, then, IsFresh,
}
use go_asynctasklib.Taskqueue.DeadLetter.{DeadLetter}
use go_asynctasklib.Taskqueue.DeadLetter.Contract.{DeadView, Keeps}
use go_asynctasklib.Taskqueue.Types.{Lease, Task}
use go_asynctasklib.Base.{
  [], ℕ, List, ◌≢◌, Mem, ◌++◌, none, ◌≡◌, subst, arith, some, ◌∷◌, sym, Option,
}
use go_asynctasklib.Base.Int.{ℤ}
use go_asynctasklib.Taskqueue.Queue.Presence.{IsCurrent, Where}
use go_asynctasklib.Taskqueue.Queue.Effects.{Sound}
use go_asynctasklib.Taskqueue.Queue.Calls.{
  redrive_enqueue-Sound, redrive_remove-Sound, enqueue-Sound, sweep_one-Sound, nack-Sound,
  ack-Sound,
}
use go_asynctasklib.Taskqueue.Queue.Burials.{
  bury_add-Sound, bury_drop-Sound, listed-dead, covered-Sound,
}
use go_asynctasklib.Taskqueue.Queue.Feeds.{dequeue_sound, redrive-Sound}
use go_asynctasklib.Base.Errors.{Error}

module _ (b : Backend) (v : View b) (d : DeadLetter) (w : DeadView d) where
  -- The backend and the dead letters are valid, and each lease that was ever given out shows what
  -- the backend holds under its token, if it still holds anything.
  pub record IsSane (s : World b v d) : Type 0 where
    pub valid : v.Valid s.queue.backend
    pub stored : w.Valid s.queue.dead
    pub current : (l : Lease) → Memᴰ l s.leases → IsCurrent b v d w s.queue.backend l

  -- A task with the ID waits, is under a lease, or lies in the dead letters.
  abbrev pub IsPresent : World b v d → ℕ → Type 0
  IsPresent s id = ∥ Where b v d w s.queue.backend s.queue.dead id ∥₁

  fresh_ne : (k : ℕ) (ls : List Lease) (l : Lease) → IsFresh k ls → Memᴰ l ls → l.token ≢ k
  fresh_ne k [] l f m = elim m [ ]
  fresh_ne k (x ∷ ls) l f (Memᴰ.head e) = λ i. f.0 (ground arith)
  fresh_ne k (x ∷ ls) l f (Memᴰ.tail m) = fresh_ne k ls l f.1 m

  due-IsCurrent :
      (s : b.State) (now : ℤ) (ls ms : List Lease)
      → AllDue b v s now ls
      → ((l : Lease) → Memᴰ l ms → IsCurrent b v d w s l)
      → (l : Lease) → Memᴰ l (ls ++ ms)
      → IsCurrent b v d w s l
  due-IsCurrent s now [] ms a c l m = c l m
  due-IsCurrent s now (x ∷ ls) ms a c l (Memᴰ.head e) =
      let (h, f, g, _) = a.0 in λ i j. ground (arith, e, f, g, j)
  due-IsCurrent s now (x ∷ ls) ms a c l (Memᴰ.tail m) = due-IsCurrent s now ls ms a.1 c l m

  ids-Mem : (o : Option ℕ) (id : ℕ) → o ≡ some id → Mem id (ids o)
  ids-Mem o id e = subst (λ x. Mem id (ids x)) (sym e) mem-cons_self

  -- What a step does to the invariant and to the tasks whose IDs do not go.
  abbrev pub Goes : World b v d → List ℕ → World b v d → Type 0
  Goes s gone u = IsSane u × ((id : ℕ) → ¬ Mem id gone → IsPresent s id → IsPresent u id)

  from_Sound :
      (s u : World b v d) (gone : List ℕ)
      → IsSane s
      → Sound b v d w none s.queue u.queue
      → u.leases ≡ s.leases
      → Goes s gone u
  from_Sound s u gone i o e = (
    record {
      valid = o.valid;
      stored = o.stored;
      current = λ l m. o.current l (i.current l (subst (Memᴰ l) e m));
    },
    λ id n p. ∥∥₁_elim p squash₁ (o.places id (λ f. ground arith)),
  )

  Sound-Goes :
      (s u : World b v d) (gone : List ℕ) (id : ℕ)
      → IsSane s
      → Sound b v d w (some id) s.queue u.queue
      → u.leases ≡ s.leases
      → gone ≡ id ∷ []
      → Goes s gone u
  Sound-Goes s u gone id i o e h = (
    record {
      valid = o.valid;
      stored = o.stored;
      current = λ l m. o.current l (i.current l (subst (Memᴰ l) e m));
    },
    λ j n p. ∥∥₁_elim p squash₁ (o.places j (λ k. n (rw (h, some-injective _ _ k) mem-cons_self))),
  )

  module _ (good : Implements b v) (kept : Keeps d w) where
    Step-Goes : (s u : World b v d) (gone : List ℕ) → IsSane s → Step b v d s gone u → Goes s gone u
    Step-Goes s u gone i (submits t e f g h) =
        let (x, r, o, _) = enqueue-Sound b v d w good kept s.queue i.valid i.stored t in
        let same : x.0 ≡ u.queue = ground (arith, r, f) in
        from_Sound s u gone i (subst (Sound b v d w none s.queue) same o) g
    Step-Goes s u gone i (delivers now timeout r c f head ctx fresh new g h) =
        let o =
          dequeue_sound b v d w good kept s.queue i.valid i.stored now timeout r c u.queue head ctx
            fresh f in
        (
          record {
            valid = o.is_valid;
            stored = o.is_stored;
            current = λ l m.
                after_delivery (subst (Memᴰ l) g m) o.known
                  (λ k. o.current l (fresh_ne r.token s.leases l new k) (i.current l k));
          },
          λ id n p. ∥∥₁_elim p squash₁ (o.places id),
        )
      where
        after_delivery :
            {l : Lease}
            → Memᴰ l (c.lease ∷ s.leases)
            → IsCurrent b v d w u.queue.backend c.lease
            → (Memᴰ l s.leases → IsCurrent b v d w u.queue.backend l)
            → IsCurrent b v d w u.queue.backend l
        after_delivery {l} (Memᴰ.head e) k old = subst (IsCurrent b v d w u.queue.backend) (sym e) k
        after_delivery (Memᴰ.tail m) k old = old m
    Step-Goes s u gone i (lists now ls f g h j) =
        let (ms, r, a) = good.reap_reports s.queue.backend now i.valid in
        let same : ms ≡ ls = ground (arith, r, f) in
        let due = subst (AllDue b v s.queue.backend now) same a in
        (
          record {
            valid = rw g i.valid;
            stored = rw g i.stored;
            current = λ l m. rw g (
                due-IsCurrent s.queue.backend now ls s.leases due i.current l (subst (Memᴰ l) h m));
          },
          λ id n p. rw g p,
        )
    Step-Goes s u gone i (sweeps now l m f g h) =
        let (x, r, o) =
          sweep_one-Sound b v d w good kept s.queue i.valid i.stored now l (i.current l m) in
        let same : x ≡ u.queue = ground (arith, r, f) in
        from_Sound s u gone i (subst (Sound b v d w none s.queue) same o) g
    Step-Goes s u gone i (nacks now reason c c' e m f g h) =
        let (x, r, o) =
          nack-Sound b v d w good kept s.queue i.valid i.stored now reason c
            (i.current c.lease m) in
        let same : x.1 ≡ u.queue = ground (arith, r, f) in
        from_Sound s u gone i (subst (Sound b v d w none s.queue) same o) g
    Step-Goes s u gone i (acks c c' e m f g h) =
        let (x, r, o) =
          ack-Sound b v d w good kept s.queue i.valid i.stored c (i.current c.lease m) in
        let same : (x.1, x.2) ≡ (u.queue, e) = ground (arith, r, f) in
        let p =
          subst
            (λ (y : Queue b d × Option Error).
              Sound b v d w (acked_by y.1 c.lease.task.id) s.queue y.0)
            same o in
        (
          record {
            valid = p.valid;
            stored = p.stored;
            current = λ l k. p.current l (i.current l (subst (Memᴰ l) g k));
          },
          λ id n q. ∥∥₁_elim q squash₁ (p.places id (λ k. n (rw h (ids-Mem _ id k)))),
        )
    Step-Goes s u gone i (redrives id e f g h) =
        let (x, r, o) = redrive-Sound b v d w good kept s.queue i.valid i.stored id in
        let same : x.0 ≡ u.queue = ground (arith, r, f) in
        from_Sound s u gone i (subst (Sound b v d w none s.queue) same o) g
    Step-Goes s u gone i (redrive_enqueues t e f g h) =
        let (x, r, o) = redrive_enqueue-Sound b v d w good kept s.queue i.valid i.stored t in
        let same : x.0 ≡ u.queue = ground (arith, r, f) in
        from_Sound s u gone i (subst (Sound b v d w none s.queue) same o) g
    Step-Goes s u gone i (redrive_removes id e f g h) =
        let (x, r, o) = redrive_remove-Sound b v d w good kept s.queue i.valid i.stored id in
        let same : x.0 ≡ u.queue = ground (arith, r, f) in
        Sound-Goes s u gone id i (subst (Sound b v d w (some id) s.queue) same o) g h
    Step-Goes s u gone i (bury_adds now l reason e f g h) =
        let (x, r, o) = bury_add-Sound b v d w good kept s.queue i.valid i.stored now l reason in
        let same : x.0 ≡ u.queue = ground (arith, r, f) in
        from_Sound s u gone i (subst (Sound b v d w none s.queue) same o) g
    Step-Goes s u gone i (bury_drops l t entries e m listed found f g h) =
        let (x, r, k, o) =
          bury_drop-Sound b v d w good kept s.queue i.valid i.stored l (i.current l m) in
        let same : x.0 ≡ u.queue = ground (arith, r, f) in
        let there =
          listed-dead b v d w good kept s.queue i.valid i.stored entries l.task.id t listed found in
        let p =
          covered-Sound b v d w good kept s.queue i.valid i.stored x.0 l.task.id t k there o in
        from_Sound s u gone i (subst (Sound b v d w none s.queue) same p) g
    Step-Goes s u gone i (bury_drops_last l e m f g h) =
        let (x, r, _, o) =
          bury_drop-Sound b v d w good kept s.queue i.valid i.stored l (i.current l m) in
        let same : x.0 ≡ u.queue = ground (arith, r, f) in
        Sound-Goes s u gone l.task.id i (subst (Sound b v d w (some l.task.id) s.queue) same o) g h

    -- At-least-once delivery. Over a backend and dead letters that keep their contracts, and under
    -- live contexts, take any history of calls of producers, consumers and the reaper, late and
    -- repeated settlements included, where other calls may come between the two writes of a Redrive
    -- and between the Add and the dropping Nack of a burial: a task that was present stays present,
    -- waiting, leased or dead lettered, unless an Ack of a claim of a task with its ID returned nil,
    -- or a Redrive of its ID, with calls between its writes, came to its Remove, or a burial of its
    -- ID, with calls between its writes, came to its drop when no dead letter of the ID was left;
    -- and the invariant is kept.
    pub history_keeps :
        (s u : World b v d) (gone : List ℕ) → IsSane s → Steps b v d s gone u → Goes s gone u
    history_keeps s u gone i start = (i, λ id n p. p)
    history_keeps s u gone i (then {m} {done} {gone = new} r st) =
        let (j, before) = history_keeps s m done i r in
        let (k, after) = Step-Goes m u new j st in
        (
          k,
          λ id n p.
              after id (λ x. n (mem-append_left done x))
                (before id (λ x. n (mem-append_right new x)) p),
        )

    -- An Enqueue on a valid queue that returns nil makes its task present.
    pub enqueue_present :
        (t : Task) (q r : Queue b d)
        → v.Valid q.backend
        → w.Valid q.dead
        → enqueue b d none none (some t) q ≡ some (r, none)
        → ∥ Where b v d w r.backend r.dead t.id ∥₁
    enqueue_present t q r valid stored e =
        let (x, f, _, here) = enqueue-Sound b v d w good kept q valid stored t in
        let same : x.0 ≡ r = ground (arith, e, f) in
        subst (λ (y : Queue b d). ∥ Where b v d w y.backend y.dead t.id ∥₁) same
          (here (ground (arith, e, f)))
