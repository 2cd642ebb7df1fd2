-- ===== src/Taskqueue/Queue/Burials.antt =====
-- OnDeadLetter in two writes: each is sound, but for the ID of a lease dropped without a dead letter.
use mathlib.Core.Option.{some-injective}
use go_asynctasklib.Taskqueue.Queue.Effects.{Sound, unchanged}
use go_asynctasklib.Taskqueue.Backend.{Backend, View, Implements}
use go_asynctasklib.Taskqueue.DeadLetter.{DeadLetter}
use go_asynctasklib.Taskqueue.DeadLetter.Contract.{DeadView, Keeps, find_task}
use go_asynctasklib.Taskqueue.Queue.{Queue}
use go_asynctasklib.Taskqueue.Types.{Task, Lease, DeadTask}
use go_asynctasklib.Base.Int.{ℤ, pos}
use go_asynctasklib.Base.{
  List, ==_iff, Option, none, some, ◌≡◌, Bool-cases, arith, inl, inr, sym, Option-cases, ◌∙◌, refl,
  ℕ, if◌then◌else◌, ◌==◌, ap, false,
}
use go_asynctasklib.Taskqueue.Queue.Presence.{IsCurrent, Where, ack_keeps}
use go_asynctasklib.Base.Errors.{ok, Error, queue, lease_not_found}
use go_asynctasklib.Taskqueue.Queue.Feeds.{find_dead-task}
use go_asynctasklib.Taskqueue.Queue.Consume.{bury_add, bury_drop, find_dead}

module _ (b : Backend) (v : View b) (d : DeadLetter) (w : DeadView d) (good : Implements b v)
    (kept : Keeps d w) (q : Queue b d) (valid : v.Valid q.backend) (stored : w.Valid q.dead) where
  pub bury_add-Sound :
      (now : ℤ) (l : Lease) (reason : Option Error)
      → (x : Queue b d × Option Error) × (bury_add b d none now l reason q ≡ x)
        × Sound b v d w none q x.0
  unfolding bury_add
  bury_add-Sound now l reason =
      let (y, f, vy, a) = kept.add_stores now l.task reason q.dead stored in
      (
        (record q { dead = y }, none),
        ground (arith, f),
        record {
          valid = valid;
          stored = vy;
          current = λ m c. c;
          places = λ j n o. ∣ all_stay y a j o ∣₁;
        },
      )
    where
      all_stay :
          (y : d.Store)
          → ((j : ℕ) → w.dead y j ≡ (if l.task.id == j then some l.task else w.dead q.dead j))
          → (j : ℕ) → Where b v d w q.backend q.dead j
          → Where b v d w q.backend y j
      all_stay y a j (Where.waits i m e) = Where.waits i m e
      all_stay y a j (Where.leased k h e f) = Where.leased k h e f
      all_stay y a j (Where.buried t e) = elim (Bool-cases (l.task.id == j)) [
        | inl same ↦ Where.buried l.task (ground (arith, a j, same))
        | inr other ↦ Where.buried t (ground (arith, a j, other, e))
      ]

  pub bury_drop-Sound :
      (l : Lease)
      → IsCurrent b v d w q.backend l
      → (x : Queue b d × Option Error) × (bury_drop b d none l.token q ≡ some x)
        × (x.0.dead ≡ q.dead)
        × Sound b v d w (some l.task.id) q x.0
  unfolding bury_drop
  bury_drop-Sound l known = elim (Option-cases (v.held q.backend l.token)) [
    | inl lost ↦ (
      (q, some (queue lease_not_found)),
      ground (arith, good.nack_missing q.backend l.token false lost),
      refl,
      unchanged b v d w _ q q valid stored refl refl,
    )
    | inr (h, e) ↦
        let (s, f, m) = good.nack_drops q.backend l.token h valid e in
        let owner = known h e in
        (
          (record q { backend = s }, none),
          ground (arith, f),
          refl,
          record {
            valid = m.valid;
            stored = stored;
            current = λ k i j g. i j (ground (arith, m.holds k.token));
            places = λ id n p.
                ∣ ack_keeps b v d w good kept q.backend s q.dead l.token h id e
                  (λ same. n (ground (arith, owner))) m p ∣₁;
          },
        )
  ]

  pub listed-dead :
      (entries : List DeadTask) (id : ℕ) (t : Task)
      → d.list none (pos 0) q.dead ≡ ok entries
      → find_dead id entries ≡ some t
      → w.dead q.dead id ≡ some t
  listed-dead entries id t e f =
      let (xs, listed, finds) = kept.list_finds q.dead stored in
      let same : xs ≡ entries = ground (arith, listed, e) in
      sym (finds id) ∙ ap (find_task id) same ∙ sym (find_dead-task id entries) ∙ f

  -- The drop of a lease loses nothing where a dead letter of the ID is left.
  pub covered-Sound :
      (r : Queue b d) (id : ℕ) (t : Task)
      → r.dead ≡ q.dead
      → w.dead q.dead id ≡ some t
      → Sound b v d w (some id) q r
      → Sound b v d w none q r
  covered-Sound r id t same there h = record {
    valid = h.valid;
    stored = h.stored;
    current = h.current;
    places = λ j n o. elim (Bool-cases (id == j)) [
      | inl e ↦
          ∣ Where.buried t
            (ap (λ x. w.dead x j) same ∙ ap (w.dead q.dead) (sym ((==_iff id j).0 e)) ∙ there) ∣₁
      | inr e ↦ h.places j (λ k. ground (arith, e, some-injective _ _ k)) o
    ];
  }
