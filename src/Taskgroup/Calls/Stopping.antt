-- ===== src/Taskgroup/Calls/Stopping.antt =====
-- taskgroup.go: what Stop leaves behind.
use go_asynctasklib.Base.{
  true, ℕ, ◌≡◌, inl, inr, ◌⊎◌, Bool-cases, ◌<◌, ◌≤◌, arith, refl, subst, ◌+◌, sym,
}
use go_asynctasklib.Task.{is_in_progress}
use go_asynctasklib.Taskgroup.Calls.{
  Group, Entry, Step, Reach, Stop, put, cancel_in_progress, new_group, not_called, returned,
  canceling,
}
use go_asynctasklib.Taskgroup.Calls as Calls
use go_asynctasklib.Taskgroup.Calls.Growing.{
  IsLater, IsRun, Step-IsLater, Step-submitted, Reach-IsRun, reach_trans, put_each, Reach-IsLater,
}
use go_asynctasklib.Taskgroup.Calls.Flag.{Reach-IsClosed, Reach-Flagged, flag_set}

abbrev pub IsHandled : Entry → Type 0
IsHandled e = (e.finished ≡ true) ⊎ (e.canceled ≡ true)

IsHandled-later : (e f : Entry) → IsLater e f → IsHandled e → IsHandled f
IsHandled-later e f l (inl p) = inl (l.finished p)
IsHandled-later e f l (inr p) = inr (l.canceled p)

cancel-IsHandled : (e : Entry) → IsRun e → IsHandled (cancel_in_progress e)
unfolding cancel_in_progress
cancel-IsHandled e h = elim (Bool-cases (is_in_progress e.state)) [
  | inl p ↦ rw p (inr refl)
  | inr p ↦ elim h.runs [ inl q ↦ rw p (inl q) | inr q ↦ absurd (ground (arith, p, q)) ]
]

-- What Stop has done to the first `n` tasks, by where it stands.
abbrev Upto : ℕ → Stop → ℕ → (ℕ → Entry) → Type 0
Upto n not_called submitted tasks = Unit
Upto n returned submitted tasks = (i : ℕ) → i < n → IsHandled (tasks i)
Upto n (canceling k m) submitted tasks =
    (n ≤ m) × (m ≤ submitted) × (k ≤ m) × ((i : ℕ) → i < k → IsHandled (tasks i))

Upto-later :
    (n : ℕ) (s : Stop) (a b : ℕ) (e f : ℕ → Entry)
    → n ≤ a
    → a ≤ b
    → ((i : ℕ) → i < a → IsLater (e i) (f i))
    → Upto n s a e
    → Upto n s b f
Upto-later n not_called a b e f p q l h = h
Upto-later n returned a b e f p q l h =
    λ i m. IsHandled-later (e i) (f i) (l i (omega (arith, p, m))) (h i m)
Upto-later n (canceling k m) a b e f p q l (x, y, z, h) = (
  x,
  omega (arith, y, q),
  z,
  λ i w. IsHandled-later (e i) (f i) (l i (omega (arith, y, z, w))) (h i w),
)

at_stop :
    (n : ℕ) (g : Group) (s : Stop)
    → g.stop ≡ s
    → Upto n g.stop g.submitted g.tasks
    → Upto n s g.submitted g.tasks
at_stop n g s e h = subst (λ x. Upto n x g.submitted g.tasks) e h

-- A step that Stop does not take.
kept :
    (n : ℕ) {g h : Group}
    → n ≤ g.submitted
    → h.stop ≡ g.stop
    → Step g h
    → Upto n g.stop g.submitted g.tasks
    → Upto n h.stop h.submitted h.tasks
kept n {g} {h} l e x u =
    subst (λ s. Upto n s h.submitted h.tasks) (sym e)
      (Upto-later n g.stop g.submitted h.submitted g.tasks h.tasks l (Step-submitted x)
        (Step-IsLater x) u)

Step-Upto :
    (n : ℕ) {g h : Group}
    → n ≤ g.submitted
    → ((i : ℕ) → IsRun (g.tasks i))
    → Step g h
    → Upto n g.stop g.submitted g.tasks
    → Upto n h.stop h.submitted h.tasks
Step-Upto n {g} l r (Calls.admits o) u = kept n {g = g} l refl (Calls.admits o) u
Step-Upto n {g} l r (Calls.gives_up o) u = kept n {g = g} l refl (Calls.gives_up o) u
Step-Upto n {g} l r (Calls.appends s f o q) u = kept n {g = g} l refl (Calls.appends s f o q) u
Step-Upto n {g} l r (Calls.spawns k m) u = kept n {g = g} l refl (Calls.spawns k m) u
Step-Upto n {g} l r (Calls.proceeds k s f m q w) u =
    kept n {g = g} l refl (Calls.proceeds k s f m q w) u
Step-Upto n {g} l r (Calls.releases k m s f) u = kept n {g = g} l refl (Calls.releases k m s f) u
Step-Upto n {g} l r (Calls.stop_begins c) u =
    (l, omega arith, omega arith, λ i w. absurd (omega (arith, w)))
Step-Upto n {g} l r (Calls.stop_cancels k m c d) u =
    let (x, y, z, old) = at_stop n g (canceling k m) c u in
    (
      x,
      y,
      omega (arith, d),
      λ i w.
          put_each (λ j e. IsHandled e) k _ g.tasks i (λ p. cancel-IsHandled (g.tasks k) (r k))
            (λ q. old i (ground (arith, w, q))),
    )
Step-Upto n {g} l r (Calls.stop_ends m c) u =
    let (x, y, z, old) = at_stop n g (canceling m m) c u in λ i w. old i (omega (arith, x, w))
Step-Upto n {g} l r (Calls.wait_begins c) u = kept n {g = g} l refl (Calls.wait_begins c) u
Step-Upto n {g} l r (Calls.wait_sees_zero m b c z) u =
    kept n {g = g} l refl (Calls.wait_sees_zero m b c z) u
Step-Upto n {g} l r (Calls.wait_ends m c z) u = kept n {g = g} l refl (Calls.wait_ends m c z) u

Reach-Upto :
    (n : ℕ) {g h : Group}
    → Reach new_group g
    → n ≤ g.submitted
    → Reach g h
    → Upto n g.stop g.submitted g.tasks
    → (n ≤ h.submitted) × Upto n h.stop h.submitted h.tasks
Reach-Upto n r l Calls.start u = (l, u)
Reach-Upto n r l (Calls.later q x) u =
    let (m, v) = Reach-Upto n r l q u in
    (omega (arith, m, Step-submitted x), Step-Upto n m (Reach-IsRun (reach_trans r q)) x v)

-- Over any order of the calls of Submit, Stop and Wait and the runs of the tasks: once a Stop that
-- starts behind a group `g` has returned, each task that was in the group before the call has ended
-- its run or has had its context canceled, and at any time after, the group has grown by no more
-- than the calls of Submit that had passed the test of the flag at the return.
pub stop-IsHandled :
    (g h k : Group)
    → Reach new_group g
    → g.stop ≡ not_called
    → Reach g h
    → h.stop ≡ returned
    → Reach h k
    → ((i : ℕ) → i < g.submitted → IsHandled (k.tasks i)) × (k.submitted ≤ h.submitted + h.admitted)
stop-IsHandled g h k r s q e w =
    let (m, u) =
      Reach-Upto g.submitted r (omega arith) q
        (subst (λ x. Upto g.submitted x g.submitted g.tasks) (sym s) tt) in
    let closed = Reach-IsClosed (h.submitted + h.admitted) w (record {
      flag = flag_set h e (Reach-Flagged q (inr (λ p. ground (arith, s, p))));
      room = omega arith;
    }) in
    (
      λ i l.
          IsHandled-later (h.tasks i) (k.tasks i) (Reach-IsLater w i (omega (arith, l, m)))
            (at_stop g.submitted h returned e u i l),
      omega (arith, closed.room),
    )
