-- ===== src/Taskqueue/Queue/Effects.antt =====
-- What one call does to the invariant of a history and to the places of the tasks.

use go_asynctasklib.Base.{
  ℕ, ◌≡◌, ◌≢◌, refl, inl, inr, true, Option, none, some, List, ◌∷◌, Bool-cases, Option-cases, arith,
}
use go_asynctasklib.Base.Int.{ℤ, pos, leb_ℤ}
use go_asynctasklib.Base.Errors.{Error, queue, lease_not_found}
use go_asynctasklib.Taskqueue.Types.{Lease}
use go_asynctasklib.Taskqueue.Backend.{Backend, View, Implements, Job, Moves}
use go_asynctasklib.Taskqueue.DeadLetter.{DeadLetter}
use go_asynctasklib.Taskqueue.DeadLetter.Contract.{DeadView, Keeps}
use go_asynctasklib.Taskqueue.Queue.{Queue, route, on_retry}
use go_asynctasklib.Taskqueue.Queue.Policy.{route_retries, route_buries, route_stale}
use go_asynctasklib.Taskqueue.Queue.Presence.{
  Where, IsCurrent, requeue_keeps, bury_keeps, stale_keeps,
}

module _ (b : Backend) (v : View b) (d : DeadLetter) (w : DeadView d) where
  -- The queue `r` is valid, knows no lease less well than `q`, and has each task of `q` but those
  -- with the ID of `gone`.
  pub record Sound (gone : Option ℕ) (q r : Queue b d) : Type 0 where
    pub valid : v.Valid r.backend
    pub stored : w.Valid r.dead
    pub current : (l : Lease) → IsCurrent b v d w q.backend l → IsCurrent b v d w r.backend l
    pub places :
        (id : ℕ)
        → gone ≢ some id
        → Where b v d w q.backend q.dead id
        → ∥ Where b v d w r.backend r.dead id ∥₁

  pub unchanged :
      (gone : Option ℕ) (q r : Queue b d)
      → v.Valid q.backend
      → w.Valid q.dead
      → r.backend ≡ q.backend
      → r.dead ≡ q.dead
      → Sound gone q r
  unchanged _ q r valid stored e f = record {
    valid = rw e valid;
    stored = rw f stored;
    current = λ l c. rw e c;
    places = λ id n p. rw (e, f) (∣ p ∣₁);
  }

  Moves-IsCurrent :
      {s t : b.State} {jobs : List Job} {k : ℕ} (l : Lease)
      → Moves b v s t jobs k none
      → IsCurrent b v d w s l
      → IsCurrent b v d w t l
  Moves-IsCurrent l m c h e = c h (ground (arith, m.holds l.token))

  module _ (good : Implements b v) (kept : Keeps d w) where
    abbrev Routes : Queue b d → Option (Queue b d × Option Error) → Type 0
    Routes q r = (x : Queue b d × Option Error) × (r ≡ some x) × Sound none q x.0

    pub route_sound :
        (now : ℤ) (l : Lease) (reason : Option Error) (q : Queue b d)
        → v.Valid q.backend
        → w.Valid q.dead
        → IsCurrent b v d w q.backend l
        → Routes q (route b d none none now l reason q)
    unfolding route
    route_sound now l reason q valid stored c =
        let (y, added, vy, a) = kept.add_stores now l.task reason q.dead stored in
        elim (Bool-cases (leb_ℤ q.max_attempts (pos l.attempt))) [
          | inl above ↦ elim (Option-cases (v.held q.backend l.token)) [
            | inl lost ↦ (
              _,
              route_stale b v good d now l reason q y (ground arith) lost added,
              record {
                valid = valid;
                stored = vy;
                current = λ m e. e;
                places =
                    λ id n p. ∣ stale_keeps b v d w good kept q.backend q.dead y l.task id a p ∣₁;
              },
            )
            | inr (h, e) ↦
                let (t, r, m) =
                  route_buries b v good d now l reason q h y valid (ground arith) e added in
                (
                  _,
                  r,
                  record {
                    valid = m.valid;
                    stored = vy;
                    current = λ n f. Moves-IsCurrent n m f;
                    places = λ id n p.
                        ∣ bury_keeps b v d w good kept q.backend t q.dead y l h id e c m a p ∣₁;
                  },
                )
          ]
          | inr below ↦ elim (Option-cases (v.held q.backend l.token)) [
            | inl lost ↦ (
              (record q { log = on_retry l.task l.attempt ∷ q.log }, some (queue lease_not_found)),
              ground (arith, good.nack_missing q.backend l.token true lost),
              unchanged none q _ valid stored refl refl,
            )
            | inr (h, e) ↦
                let (t, r, m) = route_retries b v good d now l reason q h valid (ground arith) e in
                (
                  _,
                  r,
                  record {
                    valid = m.valid;
                    stored = stored;
                    current = λ n f. Moves-IsCurrent n m f;
                    places = λ id n p.
                        ∣ requeue_keeps b v d w good kept q.backend t q.dead l.token h id e m p ∣₁;
                  },
                )
          ]
        ]
