-- ===== src/Taskgroup/Slots.antt =====
-- taskgroup.go: the slots over any interleaving of calls of Submit, ends of tasks and Stop.

use go_asynctasklib.Taskgroup.{new, TaskGroup, submit_begin, submit_end, finish, stop}
use go_asynctasklib.Base.{
  ℕ, Option, ◌≡◌, ◌<◌, ◌+◌, some, ◌≤◌, suc, Bool-cases, ap, false, Option-cases, ltb, ◌==◌, sym,
  arith, inl, subst, inr, ◌∙◌, refl, ◌-◌,
}
use go_asynctasklib.Semaphore.{acquire, release, Semaphore, acquire_with_context, new_semaphore}
use go_asynctasklib.Task.{State}
use go_asynctasklib.Base.Errors.{Error, ok}
use mathlib.Core.Option.{some-injective}
use go_asynctasklib.Base.{some, none}
use go_asynctasklib.Base.Errors.{group, task_group_stopped}
use go_asynctasklib.Base.Int.{pos}

-- One step of the group: a call of Submit takes its slot or gives up, a call of Submit ends by what
-- Task.Go says, a task's goroutine releases its slot, or Stop.
pub data Step : TaskGroup → TaskGroup → Type 0 where
  begins :
      (ctx_done e : Option Error) (g h : TaskGroup)
      → submit_begin ctx_done g ≡ some (h, e)
      → Step g h
  ends :
      (s : State) (go_err e : Option Error) (g h : TaskGroup)
      → 0 < g.submitting
      → submit_end s go_err g ≡ some (h, e)
      → Step g h
  finishes : (g h : TaskGroup) → 0 < g.running → finish g ≡ some h → Step g h
  stops : (g : TaskGroup) → Step g (stop g)

pub data Steps : TaskGroup → TaskGroup → Type 0 where
  start : (g : TaskGroup) → Steps g g
  then_step : (g h k : TaskGroup) → Steps g h → Step h k → Steps g k

-- Every slot that is out belongs to a call of Submit or to a task, and no more are out than exist.
pub record IsAccounted (n : ℕ) (g : TaskGroup) : Type 0 where
  pub limit : g.sem.limit ≡ n
  pub slots : g.sem.acquired ≡ g.submitting + g.running
  pub bounded : g.sem.acquired ≤ n

acquire_lem :
    (s t : Semaphore)
    → acquire s ≡ some t
    → (t.limit ≡ s.limit) × (t.acquired ≡ suc s.acquired) × (s.acquired < s.limit)
unfolding acquire
acquire_lem s t e = elim (Bool-cases (ltb s.acquired s.limit)) [
  | inl f ↦
      let g : acquire s ≡ some (record s { acquired = suc s.acquired }) = rw (acquire, f) refl in
      subst (λ u. (u.limit ≡ s.limit) × (u.acquired ≡ suc s.acquired) × (s.acquired < s.limit))
        (some-injective _ _ (sym g ∙ e)) (refl, refl, ground arith)
  | inr f ↦ absurd (ground (arith, f, e))
]

release_lem :
    (s t : Semaphore) → release s ≡ some t → (t.limit ≡ s.limit) × (suc t.acquired ≡ s.acquired)
unfolding release
release_lem s t e = elim (Bool-cases (s.acquired == 0)) [
  | inl f ↦ absurd (ground (arith, f, e))
  | inr f ↦
      let g : release s ≡ some (record s { acquired = s.acquired - 1 }) = ground (arith, f) in
      subst (λ u. (u.limit ≡ s.limit) × (suc u.acquired ≡ s.acquired))
        (some-injective _ _ (sym g ∙ e)) (refl, ground arith)
]

-- The group that a call is known to leave.
lands :
    (o : Option (TaskGroup × Option Error)) (g h : TaskGroup) (d e : Option Error)
    → o ≡ some (g, d)
    → o ≡ some (h, e)
    → g ≡ h
lands o g h d e p q = ap (λ r. r.0) (some-injective _ _ (sym p ∙ q))

-- Submit on a group that is not stopped.
open_begin :
    (n : ℕ) (ctx_done e : Option Error) (g h : TaskGroup)
    → IsAccounted n g
    → g.stopped ≡ false
    → submit_begin ctx_done g ≡ some (h, e)
    → IsAccounted n h
unfolding submit_begin acquire_with_context
open_begin n (some x) e g h i f p =
    let q : submit_begin (some x) g ≡ some (g, some x) = ground (arith, f) in
    subst (IsAccounted n) (lands _ g h _ e q p) i
open_begin n none e g h i f p = elim (Option-cases (acquire g.sem)) [
  | inl a ↦ absurd (ground (arith, f, a, p))
  | inr (t, a) ↦
      let q : submit_begin none g
          ≡ some (record g { sem = t; submitting = suc g.submitting }, none) =
        ground (arith, f, a) in
      let (l, k, r) = acquire_lem g.sem t a in
      subst (IsAccounted n) (lands _ _ h _ e q p) (record {
        limit = l ∙ i.limit;
        slots = omega (arith, i.slots);
        bounded = omega (arith, i.limit);
      })
]

begin-IsAccounted :
    (n : ℕ) (ctx_done e : Option Error) (g h : TaskGroup)
    → IsAccounted n g
    → submit_begin ctx_done g ≡ some (h, e)
    → IsAccounted n h
unfolding submit_begin acquire_with_context
begin-IsAccounted n ctx_done e g h i p = elim (Bool-cases g.stopped) [
  | inl f ↦
      let q : submit_begin ctx_done g ≡ some (g, some (group task_group_stopped)) =
        ground (arith, f) in
      subst (IsAccounted n) (lands _ g h _ e q p) i
  | inr f ↦ open_begin n ctx_done e g h i f p
]

end-IsAccounted :
    (n : ℕ) (s : State) (go_err e : Option Error) (g h : TaskGroup)
    → IsAccounted n g
    → 0 < g.submitting
    → submit_end s go_err g ≡ some (h, e)
    → IsAccounted n h
unfolding submit_end
end-IsAccounted n s (some x) e g h i l p = elim (Option-cases (release g.sem)) [
  | inl a ↦ absurd (ground (arith, a, p))
  | inr (t, a) ↦
      let q : submit_end s (some x) g
          ≡ some (record g { sem = t; submitting = g.submitting - 1 }, some x) =
        ground (arith, a) in
      let (m, k) = release_lem g.sem t a in
      subst (IsAccounted n) (lands _ _ h _ e q p) (record {
        limit = m ∙ i.limit;
        slots = omega (arith, i.slots);
        bounded = omega (arith, i.bounded);
      })
]
end-IsAccounted n s none e g h i l p =
    subst (IsAccounted n) (lands _ _ h _ e refl p)
      (record { limit = i.limit; slots = omega (arith, i.slots); bounded = i.bounded })

finish-IsAccounted :
    (n : ℕ) (g h : TaskGroup)
    → IsAccounted n g
    → 0 < g.running
    → finish g ≡ some h
    → IsAccounted n h
unfolding finish
finish-IsAccounted n g h i l p = elim (Option-cases (release g.sem)) [
  | inl a ↦ absurd (ground (arith, a, p))
  | inr (t, a) ↦
      let q : finish g ≡ some (record g { sem = t; running = g.running - 1 }) = ground (arith, a) in
      let (m, k) = release_lem g.sem t a in
      subst (IsAccounted n) (some-injective _ _ (sym q ∙ p)) (record {
        limit = m ∙ i.limit;
        slots = omega (arith, i.slots);
        bounded = omega (arith, i.bounded);
      })
]

Step-IsAccounted : (n : ℕ) (g h : TaskGroup) → IsAccounted n g → Step g h → IsAccounted n h
unfolding stop
Step-IsAccounted n g h i (begins c e _ _ p) = begin-IsAccounted n c e g h i p
Step-IsAccounted n g h i (ends s x e _ _ l p) = end-IsAccounted n s x e g h i l p
Step-IsAccounted n g h i (finishes _ _ l p) = finish-IsAccounted n g h i l p
Step-IsAccounted n g h i (stops _) = record {
  limit = i.limit;
  slots = i.slots;
  bounded = i.bounded;
}

Steps-IsAccounted : (n : ℕ) (g h : TaskGroup) → IsAccounted n g → Steps g h → IsAccounted n h
Steps-IsAccounted n g h i (start _) = i
Steps-IsAccounted n g h i (then_step _ k _ s x) =
    Step-IsAccounted n k h (Steps-IsAccounted n g k i s) x

-- Over any interleaving of calls of Submit, failures of Task.Go, ends of tasks and Stop on a new
-- group of maxWorkers, the slots that are out are those of the calls under way and of the tasks that
-- have not ended, and there are at most maxWorkers of them.
pub new-IsAccounted :
    (n : ℕ) (g h : TaskGroup) → new (pos (suc n)) ≡ ok g → Steps g h → IsAccounted (suc n) h
unfolding new new_semaphore
new-IsAccounted n g h e s =
    let fresh : IsAccounted (suc n) g = record {
      limit = ground (arith, e);
      slots = ground (arith, e);
      bounded = ground (arith, e);
    } in
    Steps-IsAccounted (suc n) g h fresh s
