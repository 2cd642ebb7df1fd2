-- ===== src/Taskgroup/Calls/Growing.antt =====
-- taskgroup.go: what stays of the group and of each task.
use go_asynctasklib.Base.{
  true, ℕ, ◌≡◌, inl, inr, ◌≢◌, if_both, ◌<◌, ◌≤◌, arith, Bool-cases, refl, ◌==◌, subst, sym, ap,
  if◌then◌else◌, ==_iff,
}
use go_asynctasklib.Task.{is_in_progress}
use go_asynctasklib.Taskgroup.Calls.{
  Group, Entry, Step, Reach, Runs, put, cancel_in_progress, new_group,
}
use go_asynctasklib.Taskgroup.Calls as Calls

-- What has happened to a task stays so.
pub record IsLater (e f : Entry) : Type 0 where
  pub finished : e.finished ≡ true → f.finished ≡ true
  pub canceled : e.canceled ≡ true → f.canceled ≡ true
  pub spawned : e.spawned ≡ true → f.spawned ≡ true
  pub released : e.released ≡ true → f.released ≡ true

IsLater-refl : (e : Entry) → IsLater e e
IsLater-refl e = record {
  finished = λ p. p;
  canceled = λ p. p;
  spawned = λ p. p;
  released = λ p. p;
}

-- What holds of each entry, with one of them changed.
pub put_each :
    (P : ℕ → Entry → Type 0) (i : ℕ) (e : Entry) (f : ℕ → Entry) (j : ℕ)
    → (i ≡ j → P i e)
    → (i ≢ j → P j (f j))
    → P j (put i e f j)
unfolding put
put_each P i e f j k ks = elim (Bool-cases (i == j)) [
  | inl b ↦
      subst (P j) (sym (ap (λ b. if b then e else f j) b))
        (subst (λ x. P x e) ((==_iff i j).0 b) (k ((==_iff i j).0 b)))
  | inr b ↦ subst (P j) (sym (ap (λ b. if b then e else f j) b)) (ks (λ p. ground (arith, p, b)))
]

one-IsLater :
    (g : Group) (i : ℕ) (e : Entry)
    → IsLater (g.tasks i) e
    → (j : ℕ) → IsLater (g.tasks j) (put i e g.tasks j)
one-IsLater g i e l j =
    put_each (λ j e. IsLater (g.tasks j) e) i e g.tasks j (λ p. l) (λ n. IsLater-refl (g.tasks j))

cancel-IsLater : (e : Entry) → IsLater e (cancel_in_progress e)
unfolding cancel_in_progress
cancel-IsLater e =
    if_both (IsLater e) (is_in_progress e.state) (record e { canceled = true }) e
      (λ q. record { finished = λ p. p; canceled = λ p. refl; spawned = λ p. p; released = λ p. p })
      (λ q. IsLater-refl e)

pub Step-IsLater :
    {g h : Group} → Step g h → (i : ℕ) → i < g.submitted → IsLater (g.tasks i) (h.tasks i)
Step-IsLater {g} (Calls.admits o) i l = IsLater-refl (g.tasks i)
Step-IsLater {g} (Calls.gives_up o) i l = IsLater-refl (g.tasks i)
Step-IsLater {g} (Calls.appends s f o r) i l =
    put_each (λ j e. IsLater (g.tasks j) e) g.submitted _ g.tasks i
      (λ p. absurd (omega (arith, p, l))) (λ n. IsLater-refl (g.tasks i))
Step-IsLater {g} (Calls.spawns k m) i l =
    one-IsLater g k _
      (record { finished = λ p. p; canceled = λ p. p; spawned = λ p. refl; released = λ p. p }) i
Step-IsLater {g} (Calls.proceeds k s f m r u) i l =
    one-IsLater g k _
      (record {
        finished = λ p. absurd (ground (arith, p, u));
        canceled = λ p. p;
        spawned = λ p. p;
        released = λ p. p;
      })
      i
Step-IsLater {g} (Calls.releases k m s f) i l =
    one-IsLater g k _
      (record { finished = λ p. p; canceled = λ p. p; spawned = λ p. p; released = λ p. refl }) i
Step-IsLater {g} (Calls.stop_begins c) i l = IsLater-refl (g.tasks i)
Step-IsLater {g} (Calls.stop_cancels k n c m) i l = one-IsLater g k _ (cancel-IsLater (g.tasks k)) i
Step-IsLater {g} (Calls.stop_ends n c) i l = IsLater-refl (g.tasks i)
Step-IsLater {g} (Calls.wait_begins c) i l = IsLater-refl (g.tasks i)
Step-IsLater {g} (Calls.wait_sees_zero n b c z) i l = IsLater-refl (g.tasks i)
Step-IsLater {g} (Calls.wait_ends n c z) i l = IsLater-refl (g.tasks i)

pub Step-submitted : {g h : Group} → Step g h → g.submitted ≤ h.submitted
Step-submitted (Calls.appends s f o r) = omega arith
Step-submitted (Calls.admits o) = omega arith
Step-submitted (Calls.gives_up o) = omega arith
Step-submitted (Calls.spawns k m) = omega arith
Step-submitted (Calls.proceeds k s f m r u) = omega arith
Step-submitted (Calls.releases k m s f) = omega arith
Step-submitted (Calls.stop_begins c) = omega arith
Step-submitted (Calls.stop_cancels k n c m) = omega arith
Step-submitted (Calls.stop_ends n c) = omega arith
Step-submitted (Calls.wait_begins c) = omega arith
Step-submitted (Calls.wait_sees_zero n b c z) = omega arith
Step-submitted (Calls.wait_ends n c z) = omega arith

-- A task is in progress or its run has ended, and a slot is released behind the end.
pub record IsRun (e : Entry) : Type 0 where
  pub runs : Runs e.state e.finished
  pub released_late : e.released ≡ true → e.finished ≡ true

cancel-IsRun : (e : Entry) → IsRun e → IsRun (cancel_in_progress e)
unfolding cancel_in_progress
cancel-IsRun e h =
    if_both IsRun (is_in_progress e.state) (record e { canceled = true }) e
      (λ q. record { runs = h.runs; released_late = h.released_late }) (λ q. h)

AllRun : Group → Type 0
AllRun g = (i : ℕ) → IsRun (g.tasks i)

one-IsRun :
    (g : Group) (i : ℕ) (e : Entry) → IsRun e → AllRun g → (j : ℕ) → IsRun (put i e g.tasks j)
unfolding AllRun
one-IsRun g i e r h j = put_each (λ j e. IsRun e) i e g.tasks j (λ p. r) (λ n. h j)

Step-AllRun : {g h : Group} → Step g h → AllRun g → AllRun h
unfolding AllRun
Step-AllRun {g} (Calls.admits o) h = h
Step-AllRun {g} (Calls.gives_up o) h = h
Step-AllRun {g} (Calls.appends s f o r) h =
    one-IsRun g _ _ (record { runs = r; released_late = λ p. absurd (ground (arith, p)) }) h
Step-AllRun {g} (Calls.spawns k m) h =
    one-IsRun g k _ (record { runs = (h k).runs; released_late = (h k).released_late }) h
Step-AllRun {g} (Calls.proceeds k s f m r u) h =
    one-IsRun g k _
      (record { runs = r; released_late = λ p. absurd (ground (arith, u, (h k).released_late p)) })
      h
Step-AllRun {g} (Calls.releases k m s f) h =
    one-IsRun g k _ (record { runs = (h k).runs; released_late = λ p. f }) h
Step-AllRun {g} (Calls.stop_begins c) h = h
Step-AllRun {g} (Calls.stop_cancels k n c m) h = one-IsRun g k _ (cancel-IsRun (g.tasks k) (h k)) h
Step-AllRun {g} (Calls.stop_ends n c) h = h
Step-AllRun {g} (Calls.wait_begins c) h = h
Step-AllRun {g} (Calls.wait_sees_zero n b c z) h = h
Step-AllRun {g} (Calls.wait_ends n c z) h = h

pub Reach-IsRun : {h : Group} → Reach new_group h → (i : ℕ) → IsRun (h.tasks i)
unfolding AllRun is_in_progress
Reach-IsRun Calls.start =
    λ i. record { runs = inr refl; released_late = λ p. absurd (ground (arith, p)) }
Reach-IsRun (Calls.later r x) = Step-AllRun x (Reach-IsRun r)

pub reach_trans : {g h k : Group} → Reach g h → Reach h k → Reach g k
reach_trans r Calls.start = r
reach_trans r (Calls.later q x) = Calls.later (reach_trans r q) x

IsLater-trans : (e f d : Entry) → IsLater e f → IsLater f d → IsLater e d
IsLater-trans e f d l m = record {
  finished = λ p. m.finished (l.finished p);
  canceled = λ p. m.canceled (l.canceled p);
  spawned = λ p. m.spawned (l.spawned p);
  released = λ p. m.released (l.released p);
}

pub reach_submitted : {g h : Group} → Reach g h → g.submitted ≤ h.submitted
reach_submitted Calls.start = omega arith
reach_submitted (Calls.later r x) = omega (arith, reach_submitted r, Step-submitted x)

pub Reach-IsLater :
    {g h : Group} → Reach g h → (i : ℕ) → i < g.submitted → IsLater (g.tasks i) (h.tasks i)
Reach-IsLater {g} Calls.start i l = IsLater-refl (g.tasks i)
Reach-IsLater {g} (Calls.later r x) i l =
    IsLater-trans _ _ _ (Reach-IsLater r i l)
      (Step-IsLater x i (omega (arith, l, reach_submitted r)))
