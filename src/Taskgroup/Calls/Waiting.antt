-- ===== src/Taskgroup/Calls/Waiting.antt =====
-- taskgroup.go: what Wait waits for.
use go_asynctasklib.Base.{
  true, false, ℕ, ◌≡◌, Bool, inl, inr, ◌≤◌, ◌⊎◌, ◌<◌, subst, sym, Bool-cases, arith, refl,
}
use go_asynctasklib.Taskgroup.Calls.{
  Group, Entry, Step, Reach, Wait, put, not_waiting, has_returned, waiting,
}
use go_asynctasklib.Taskgroup.Calls as Calls
use go_asynctasklib.Taskgroup.Calls.Growing.{IsLater, Step-IsLater, Reach-IsLater, reach_submitted}

-- Behind the copy of Wait: the slots of the tasks in `mine`, of the first `n`, are released once
-- releaseWg has been at zero, and all of these tasks have ended at the return.
abbrev Behind : (ℕ → Bool) → ℕ → Wait → (ℕ → Entry) → Type 0
Behind mine n not_waiting tasks = Unit
Behind mine n (waiting m false) tasks = n ≤ m
Behind mine n (waiting m true) tasks =
    (n ≤ m) × ((i : ℕ) → i < n → (mine i ≡ false) ⊎ ((tasks i).released ≡ true))
Behind mine n has_returned tasks =
    (i : ℕ) → i < n → ((tasks i).finished ≡ true) × ((mine i ≡ false) ⊎ ((tasks i).released ≡ true))

released_later :
    (b : Bool) (e f : Entry)
    → IsLater e f
    → (b ≡ false) ⊎ (e.released ≡ true)
    → (b ≡ false) ⊎ (f.released ≡ true)
released_later b e f l (inl p) = inl p
released_later b e f l (inr p) = inr (l.released p)

Behind-later :
    (mine : ℕ → Bool) (n : ℕ) (w : Wait) (e f : ℕ → Entry)
    → ((i : ℕ) → i < n → IsLater (e i) (f i))
    → Behind mine n w e
    → Behind mine n w f
Behind-later mine n not_waiting e f l h = h
Behind-later mine n (waiting m false) e f l h = h
Behind-later mine n (waiting m true) e f l (p, h) =
    (p, λ i w. released_later (mine i) (e i) (f i) (l i w) (h i w))
Behind-later mine n has_returned e f l h =
    λ i w. ((l i w).finished (h i w).0, released_later (mine i) (e i) (f i) (l i w) (h i w).1)

at_wait :
    (mine : ℕ → Bool) (n : ℕ) (g : Group) (w : Wait)
    → g.wait ≡ w
    → Behind mine n g.wait g.tasks
    → Behind mine n w g.tasks
at_wait mine n g w e h = subst (λ x. Behind mine n x g.tasks) e h

-- A step that Wait does not take.
waits_on :
    (mine : ℕ → Bool) (n : ℕ) (g h : Group)
    → n ≤ g.submitted
    → h.wait ≡ g.wait
    → Step g h
    → Behind mine n g.wait g.tasks
    → Behind mine n h.wait h.tasks
waits_on mine n g h l e x u =
    subst (λ w. Behind mine n w h.tasks) (sym e)
      (Behind-later mine n g.wait g.tasks h.tasks (λ i w. Step-IsLater x i (omega (arith, l, w))) u)

copied :
    (mine : ℕ → Bool) (n m : ℕ) (b : Bool) (tasks : ℕ → Entry)
    → Behind mine n (waiting m b) tasks
    → n ≤ m
copied mine n m false tasks h = h
copied mine n m true tasks h = h.0

Step-Behind :
    (mine : ℕ → Bool) (n : ℕ) {g h : Group}
    → n ≤ g.submitted
    → ((i : ℕ) → i < n → mine i ≡ true → (g.tasks i).spawned ≡ true)
    → Step g h
    → Behind mine n g.wait g.tasks
    → Behind mine n h.wait h.tasks
Step-Behind mine n {g} l s (Calls.admits o) u = waits_on mine n g _ l refl (Calls.admits o) u
Step-Behind mine n {g} l s (Calls.gives_up o) u = waits_on mine n g _ l refl (Calls.gives_up o) u
Step-Behind mine n {g} l s (Calls.appends t f o q) u =
    waits_on mine n g _ l refl (Calls.appends t f o q) u
Step-Behind mine n {g} l s (Calls.spawns k m) u = waits_on mine n g _ l refl (Calls.spawns k m) u
Step-Behind mine n {g} l s (Calls.proceeds k t f m q w) u =
    waits_on mine n g _ l refl (Calls.proceeds k t f m q w) u
Step-Behind mine n {g} l s (Calls.releases k m t f) u =
    waits_on mine n g _ l refl (Calls.releases k m t f) u
Step-Behind mine n {g} l s (Calls.stop_begins c) u =
    waits_on mine n g _ l refl (Calls.stop_begins c) u
Step-Behind mine n {g} l s (Calls.stop_cancels k m c d) u =
    waits_on mine n g _ l refl (Calls.stop_cancels k m c d) u
Step-Behind mine n {g} l s (Calls.stop_ends m c) u =
    waits_on mine n g _ l refl (Calls.stop_ends m c) u
Step-Behind mine n {g} l s (Calls.wait_begins c) u = l
Step-Behind mine n {g} l s (Calls.wait_sees_zero m b c z) u = (
  copied mine n m b g.tasks (at_wait mine n g (waiting m b) c u),
  λ i w. elim (Bool-cases (mine i)) [
    | inl p ↦ inr (z i (omega (arith, l, w)) (s i w p))
    | inr p ↦ inl p
  ],
)
Step-Behind mine n {g} l s (Calls.wait_ends m c z) u =
    let (p, h) = at_wait mine n g (waiting m true) c u in λ i w. (z i (omega (arith, p, w)), h i w)

Reach-Behind :
    (g : Group) {h : Group}
    → g.wait ≡ not_waiting
    → Reach g h
    → Behind (λ i. (g.tasks i).spawned) g.submitted h.wait h.tasks
Reach-Behind g e Calls.start =
    subst (λ x. Behind (λ i. (g.tasks i).spawned) g.submitted x g.tasks) (sym e) tt
Reach-Behind g e (Calls.later r x) =
    Step-Behind (λ i. (g.tasks i).spawned) g.submitted (reach_submitted r)
      (λ i w p. (Reach-IsLater r i w).spawned p) x (Reach-Behind g e r)

-- Over any order of the calls of Submit, Stop and Wait and the runs of the tasks: once a Wait that
-- starts behind a group `g` has returned, each task that was in the group before the call has ended
-- its run, and its slot is released if its goroutine had been started before the call.
pub wait-IsEnded :
    (g h : Group) (i : ℕ)
    → g.wait ≡ not_waiting
    → Reach g h
    → h.wait ≡ has_returned
    → i < g.submitted
    → ((h.tasks i).finished ≡ true)
      × (((g.tasks i).spawned ≡ false) ⊎ ((h.tasks i).released ≡ true))
wait-IsEnded g h i e r f l =
    at_wait (λ i. (g.tasks i).spawned) g.submitted h has_returned f (Reach-Behind g e r) i l
