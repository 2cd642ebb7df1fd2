-- ===== src/Taskqueue/Queue/Presence.antt =====
-- At-least-once delivery: where an accepted task can be found, and which calls can make it vanish.
use mathlib.Core.List.{mem-cons_self, mem-cons_of_mem, mem-cons}
use mathlib.Core.List.Perm
use mathlib.Core.Logic.Or
use go_asynctasklib.Base.{
  ℕ, ◌≡◌, subst, ◌∙◌, inl, inr, none, some, List, ◌∷◌, Mem, Perm, ◌==◌, Bool-cases, if◌then◌else◌,
  arith, ◌≢◌, ◌⊎◌,
}
use go_asynctasklib.Taskqueue.Types.{Task, Lease}
use go_asynctasklib.Taskqueue.Backend.{Backend, View, Implements, Job, Holding, Moves, Claimed}
use go_asynctasklib.Taskqueue.DeadLetter.{DeadLetter}
use go_asynctasklib.Taskqueue.DeadLetter.Contract.{DeadView, Keeps}
use go_asynctasklib.Taskqueue.Queue.{Queue}
use go_asynctasklib.Base.Int.{ℤ}

module _ (b : Backend) (v : View b) (d : DeadLetter) (w : DeadView d) where
  -- A task with the ID waits, is under a lease, or lies in the dead letters.
  pub data Where (s : b.State) (x : d.Store) (id : ℕ) : Type 0 where
    waits : (j : Job) → Mem j (v.ready s) → j.task.id ≡ id → Where s x id
    leased : (k : ℕ) (h : Holding) → v.held s k ≡ some h → h.job.task.id ≡ id → Where s x id
    buried : (t : Task) → w.dead x id ≡ some t → Where s x id

  abbrev pub Present : Queue b d → ℕ → Type 0
  Present q id = ∥ Where q.backend q.dead id ∥₁

  -- What a lease shows is what the backend holds under its token, if it still holds anything.
  abbrev pub IsCurrent : b.State → Lease → Type 0
  IsCurrent s l =
      (h : Holding)
      → v.held s l.token ≡ some h
      → h.job ≡ record { task = l.task; attempt = l.attempt }

  module _ (good : Implements b v) (kept : Keeps d w) where
    perm-mem : {j : Job} {xs ys : List Job} → Perm xs ys → Mem j ys → Mem j xs
    perm-mem p m = (Perm.mem_iff p).1 m

    -- A requeue moves the job from its token to the waiting jobs.
    pub requeue_keeps :
        (s t : b.State) (x : d.Store) (k : ℕ) (h : Holding) (id : ℕ)
        → v.held s k ≡ some h
        → Moves b v s t (h.job ∷ v.ready s) k none
        → Where s x id
        → Where t x id
    requeue_keeps s t x k h id e m (waits j i f) =
        waits j (perm-mem m.waits (mem-cons_of_mem _ i)) f
    requeue_keeps s t x k h id e m (leased j g f i) = elim (Bool-cases (k == j)) [
      | inl same ↦
          let q : h ≡ g = ground (arith, e, f) in
          waits g.job
            (subst (λ (z : Holding). Mem z.job (v.ready t)) q (perm-mem m.waits mem-cons_self)) i
      | inr other ↦ leased j g (m.holds j ∙ ground arith) i
    ]
    requeue_keeps s t x k h id e m (buried y f) = buried y f

    -- A burial moves the task from its token to the dead letters.
    pub bury_keeps :
        (s t : b.State) (x y : d.Store) (l : Lease) (h : Holding) (id : ℕ)
        → v.held s l.token ≡ some h
        → IsCurrent s l
        → Moves b v s t (v.ready s) l.token none
        → ((j : ℕ) → w.dead y j ≡ (if l.task.id == j then some l.task else w.dead x j))
        → Where s x id
        → Where t y id
    bury_keeps s t x y l h id e c m a (waits j i f) = waits j (perm-mem m.waits i) f
    bury_keeps s t x y l h id e c m a (leased j g f i) = elim (Bool-cases (l.token == j)) [
      | inl same ↦
          let q : h ≡ g = ground (arith, e, f) in
          let r : l.task.id ≡ id = ground (arith, c h e, q, i) in
          buried l.task (a id ∙ ground arith)
      | inr other ↦ leased j g (m.holds j ∙ ground arith) i
    ]
    bury_keeps s t x y l h id e c m a (buried z f) = elim (Bool-cases (l.task.id == id)) [
      | inl same ↦ buried l.task (a id ∙ ground arith)
      | inr other ↦ buried z (a id ∙ ground arith)
    ]

    -- A burial of a lease that is no longer held can only add to the dead letters.
    pub stale_keeps :
        (s : b.State) (x y : d.Store) (t : Task) (id : ℕ)
        → ((j : ℕ) → w.dead y j ≡ (if t.id == j then some t else w.dead x j))
        → Where s x id
        → Where s y id
    stale_keeps s x y t id a (waits j i f) = waits j i f
    stale_keeps s x y t id a (leased j g f i) = leased j g f i
    stale_keeps s x y t id a (buried z f) = elim (Bool-cases (t.id == id)) [
      | inl same ↦ buried t (a id ∙ ground arith)
      | inr other ↦ buried z (a id ∙ ground arith)
    ]

    -- A claim moves a waiting job to its token.
    pub claim_keeps :
        (s t : b.State) (x : d.Store) (k : ℕ) (now visibility : ℤ) (l : Lease) (id : ℕ)
        → v.held s k ≡ none
        → Claimed b v s t k now visibility l
        → Where s x id
        → ∥ Where t x id ∥₁
    claim_keeps s t x k now visibility l id fresh c (waits j i f) =
        Or.elim squash₁ (mem-cons.0 ((Perm.mem_iff c.taken).1 i))
          (λ e. ∣ leased k c.holding (c.holds k ∙ ground arith) (ground (arith, c.counted)) ∣₁)
          (λ m. ∣ waits j m f ∣₁)
    claim_keeps s t x k now visibility l id fresh c (leased j h f i) = elim (Bool-cases (k == j)) [
      | inl same ↦ absurd (ground arith)
      | inr other ↦ ∣ leased j h (c.holds j ∙ ground arith) i ∣₁
    ]
    claim_keeps s t x k now visibility l id fresh c (buried z f) = ∣ buried z f ∣₁

    -- An ack removes the job of its token only.
    pub ack_keeps :
        (s t : b.State) (x : d.Store) (k : ℕ) (h : Holding) (id : ℕ)
        → v.held s k ≡ some h
        → h.job.task.id ≢ id
        → Moves b v s t (v.ready s) k none
        → Where s x id
        → Where t x id
    ack_keeps s t x k h id e n m (waits j i f) = waits j (perm-mem m.waits i) f
    ack_keeps s t x k h id e n m (leased j g f i) = elim (Bool-cases (k == j)) [
      | inl same ↦ absurd (n (ground arith))
      | inr other ↦ leased j g (m.holds j ∙ ground arith) i
    ]
    ack_keeps s t x k h id e n m (buried z f) = buried z f

    -- More waiting jobs, the same leases, and dead letters that lack at most a waiting task.
    pub grow_keeps :
        (s t : b.State) (x y : d.Store) (j : Job) (id : ℕ)
        → Perm (v.ready t) (j ∷ v.ready s)
        → ((k : ℕ) → v.held t k ≡ v.held s k)
        → ((z : Task) → w.dead x id ≡ some z → (w.dead y id ≡ some z) ⊎ (j.task.id ≡ id))
        → Where s x id
        → Where t y id
    grow_keeps s t x y j id p e k (waits i m f) = waits i (perm-mem p (mem-cons_of_mem _ m)) f
    grow_keeps s t x y j id p e k (leased i h f g) = leased i h (e i ∙ f) g
    grow_keeps s t x y j id p e k (buried z f) = elim (k z f) [
      | inl still ↦ buried z still
      | inr now ↦ waits j (perm-mem p mem-cons_self) now
    ]
