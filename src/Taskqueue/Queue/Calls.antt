-- ===== src/Taskqueue/Queue/Calls.antt =====
-- Every call of the queue is sound: it returns, keeps the state valid, and loses no task, but for
-- the one that an Ack removes.
use mathlib.Core.List.Perm
use go_asynctasklib.Taskqueue.Queue.Effects.{Sound, unchanged, route_sound}
use go_asynctasklib.Taskqueue.Backend.{Backend, View, Implements}
use go_asynctasklib.Taskqueue.Queue.{enqueue, nack, ack, sweep_one, on_enqueue, on_nack, on_ack}
use go_asynctasklib.Taskqueue.DeadLetter.{DeadLetter}
use go_asynctasklib.Taskqueue.DeadLetter.Contract.{DeadView, Keeps}
use go_asynctasklib.Taskqueue.Queue.{Queue, sweep_one, Claim, on_lease_expired}
use go_asynctasklib.Taskqueue.Types.{Task, Lease}
use go_asynctasklib.Base.Int.{ℤ}
use go_asynctasklib.Base.{
  Option, none, some, ◌≡◌, Bool-cases, ◌∷◌, arith, inl, inr, sym, true, Option-cases, ◌∙◌, refl, ℕ,
  if◌then◌else◌, ◌==◌, ◌≢◌, ap,
}
use go_asynctasklib.Taskqueue.Queue.Presence.{IsCurrent, Where, grow_keeps, ack_keeps}
use go_asynctasklib.Base.Errors.{
  Error, queue, lease_expired, queue_closed, claim_settled, lease_not_found,
}
use mathlib.Core.List.{mem-cons_self}
use go_asynctasklib.Taskqueue.Queue.History.{acked_by}
use go_asynctasklib.Taskqueue.Queue.Consume.{redrive_enqueue, redrive_remove}

module _ (b : Backend) (v : View b) (d : DeadLetter) (w : DeadView d) (good : Implements b v)
    (kept : Keeps d w) (q : Queue b d) (valid : v.Valid q.backend) (stored : w.Valid q.dead) where
  pub enqueue-Sound :
      (t : Task)
      → (x : Queue b d × Option Error) × (enqueue b d none none (some t) q ≡ some x)
        × Sound b v d w none q x.0
        × (x.1 ≡ none → ∥ Where b v d w x.0.backend x.0.dead t.id ∥₁)
  unfolding enqueue
  enqueue-Sound t = elim (Bool-cases q.closed) [
    | inl shut ↦ (
      (q, some (queue queue_closed)),
      ground arith,
      unchanged b v d w none q q valid stored refl refl,
      λ e. absurd (ground arith),
    )
    | inr live ↦
        let (s, e, vs, p, h) = good.enqueue_adds q.backend t valid in
        let r = record q { backend = s; log = on_enqueue t ∷ q.log } in
        (
          (r, none),
          ground (arith, e),
          record {
            valid = vs;
            stored = stored;
            current = λ l c i f. c i (sym (h l.token) ∙ f);
            places = λ id n o.
                ∣ grow_keeps b v d w good kept q.backend s q.dead q.dead _ id p h (λ z f. inl f)
                  o ∣₁;
          },
          λ _.
              ∣ Where.waits (record { task = t; attempt = 0 }) ((Perm.mem_iff p).1 mem-cons_self)
                refl ∣₁,
        )
  ]

  pub nack-Sound :
      (now : ℤ) (reason : Option Error) (c : Claim b d)
      → IsCurrent b v d w q.backend c.lease
      → (x : Claim b d × Queue b d × Option Error) × (nack b d none none now reason c q ≡ some x)
        × Sound b v d w none q x.1
  unfolding nack
  nack-Sound now reason c known = elim (Bool-cases c.settled) [
    | inl over ↦ (
      (c, q, some (queue claim_settled)),
      ground arith,
      unchanged b v d w none q q valid stored refl refl,
    )
    | inr fresh ↦
        let r = record q { log = on_nack c.lease.task reason ∷ q.log } in
        let (x, e, s) = route_sound b v d w good kept now c.lease reason r valid stored known in
        (
          (record c { settled = true }, x.0, x.1),
          ground (arith, e),
          record { valid = s.valid; stored = s.stored; current = s.current; places = s.places },
        )
  ]

  pub sweep_one-Sound :
      (now : ℤ) (l : Lease)
      → IsCurrent b v d w q.backend l
      → (x : Queue b d) × (sweep_one b d none none now l q ≡ some x) × Sound b v d w none q x
  unfolding sweep_one
  sweep_one-Sound now l known =
      let r = record q { log = on_lease_expired l ∷ q.log } in
      let (x, e, s) =
        route_sound b v d w good kept now l (some (queue lease_expired)) r valid stored known in
      (
        x.0,
        ground (arith, e),
        record { valid = s.valid; stored = s.stored; current = s.current; places = s.places },
      )

  pub ack-Sound :
      (c : Claim b d)
      → IsCurrent b v d w q.backend c.lease
      → (x : Claim b d × Queue b d × Option Error) × (ack b d none c q ≡ some x)
        × Sound b v d w (acked_by x.2 c.lease.task.id) q x.1
  unfolding ack
  ack-Sound c known = elim (Bool-cases c.settled) [
    | inl over ↦ (
      (c, q, some (queue claim_settled)),
      ground arith,
      unchanged b v d w _ q q valid stored refl refl,
    )
    | inr fresh ↦
        let r = record q { log = on_ack c.lease.task ∷ q.log } in
        elim (Option-cases (v.held q.backend c.lease.token)) [
          | inl lost ↦ (
            (record c { settled = true }, r, some (queue lease_not_found)),
            ground (arith, good.ack_missing q.backend c.lease.token lost),
            unchanged b v d w _ q r valid stored refl refl,
          )
          | inr (h, e) ↦
              let (s, f, m) = good.ack_removes q.backend c.lease.token h valid e in
              let owner = known h e in
              (
                (record c { settled = true }, record r { backend = s }, none),
                ground (arith, f),
                record {
                  valid = m.valid;
                  stored = stored;
                  current = λ l k i g. k i (ground (arith, m.holds l.token));
                  places = λ id n p.
                      ∣ ack_keeps b v d w good kept q.backend s q.dead c.lease.token h id e
                        (λ same. n (ground (arith, owner))) m p ∣₁;
                },
              )
        ]
  ]

  pub redrive_enqueue-Sound :
      (t : Task)
      → (x : Queue b d × Option Error) × (redrive_enqueue b d none t q ≡ some x)
        × Sound b v d w none q x.0
  unfolding redrive_enqueue
  redrive_enqueue-Sound t =
      let (s, e, vs, p, h) = good.enqueue_adds q.backend t valid in
      (
        (record q { backend = s; log = on_enqueue t ∷ q.log }, none),
        ground (arith, e),
        record {
          valid = vs;
          stored = stored;
          current = λ l c i f. c i (sym (h l.token) ∙ f);
          places = λ id n o.
              ∣ grow_keeps b v d w good kept q.backend s q.dead q.dead _ id p h (λ z f. inl f) o ∣₁;
        },
      )

  pub redrive_remove-Sound :
      (id : ℕ)
      → (x : Queue b d × Option Error) × (redrive_remove b d none id q ≡ x)
        × Sound b v d w (some id) q x.0
  unfolding redrive_remove
  redrive_remove-Sound id =
      let (y, f, vy, a) = kept.remove_deletes q.dead id stored in
      (
        (record q { dead = y }, none),
        ground (arith, f),
        record {
          valid = valid;
          stored = vy;
          current = λ l c. c;
          places = λ j n o. ∣ others_stay id y a j (λ e. n (ap some e)) o ∣₁;
        },
      )
    where
      others_stay :
          (id : ℕ) (y : d.Store)
          → ((j : ℕ) → w.dead y j ≡ (if id == j then none else w.dead q.dead j))
          → (j : ℕ) → id ≢ j
          → Where b v d w q.backend q.dead j
          → Where b v d w q.backend y j
      others_stay id y a j n (Where.waits i m e) = Where.waits i m e
      others_stay id y a j n (Where.leased k h e f) = Where.leased k h e f
      others_stay id y a j n (Where.buried t e) = Where.buried t (ground (arith, a j, n, e))
