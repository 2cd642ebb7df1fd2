-- ===== src/Taskqueue/Memory/Order.antt =====
-- The order of the waiting items, and push and pop on items seen as jobs.
use mathlib.Core.Option
use go_asynctasklib.Base.{
  suc, ◌-◌, ◌<◌, ◌≡◌, refl, sym, subst, ap, ◌∙◌, Bool, false, Option, none, some, List, ◌∷◌, map,
  Mem, Perm, length, length-map, arith,
}
use go_asynctasklib.Taskqueue.Types.{Mode, mode_priority, mode_fifo}
use go_asynctasklib.Taskqueue.Backend.{Job}
use go_asynctasklib.Taskqueue.Heap.{push, pop}
use go_asynctasklib.Taskqueue.Heap.Order.{IsOrder, IsHeap}
use go_asynctasklib.Taskqueue.Heap.Correct.{push_adds, pop_takes}
use go_asynctasklib.Taskqueue.Heap.Views.{push-view, pop-view, views}
use go_asynctasklib.Taskqueue.Memory.{
  QueueItem, MemoryBackend, task_less, item_less, place, heap_push,
}

abbrev pub job_of : QueueItem → Job
job_of item = record { task = item.task; attempt = item.attempt }

pub job_less : Mode → Job → Job → Bool
job_less m a b = task_less m a.task b.task

pub job_less_lem : (m : Mode) (a b : Job) → job_less m a b ≡ task_less m a.task b.task
unfolding job_less
job_less_lem m a b = refl

abbrev pub no_job : Job
no_job = record { task = record { id = 0; seq = 0; priority = 0 }; attempt = 0 }

pub job_less-IsOrder : (m : Mode) → IsOrder (job_less m)
unfolding job_less task_less
job_less-IsOrder mode_priority = record {
  asym = λ a b h. ground arith;
  trans = λ a b c h k. ground arith;
}
job_less-IsOrder mode_fifo = record {
  asym = λ a b h. ground arith;
  trans = λ a b c h k. ground arith;
}

abbrev pub waiting : MemoryBackend → List Job
waiting b = map job_of b.ready

-- The waiting jobs stand in heap order.
abbrev pub IsOrdered : MemoryBackend → Type 0
IsOrdered b = IsHeap (job_less b.mode) no_job (waiting b)

map-eq-some {ℓ κ} :
    {A : Type ℓ} {B : Type κ} (f : A → B) (r : Option A) (b : B)
    → Option.map f r ≡ some b
    → (a : A) × (r ≡ some a) × (f a ≡ b)
map-eq-some f none b e = absurd (ground arith)
map-eq-some f (some a) b e = (a, refl, ground arith)

item_less-view : (m : Mode) (x y : QueueItem) → item_less m x y ≡ job_less m (job_of x) (job_of y)
unfolding item_less job_less
item_less-view m x y = refl

-- The step that Enqueue and a requeueing Nack share.
pub heap_push_adds :
    (b : MemoryBackend) (item : QueueItem)
    → IsOrdered b
    → (r : List QueueItem) × (heap_push b item ≡ some (record b { ready = r }))
      × IsHeap (job_less b.mode) no_job (map job_of r)
      × Perm (map job_of r) (job_of item ∷ waiting b)
unfolding heap_push item_less job_less place
heap_push_adds b item h =
    let less = job_less b.mode in
    let (ys, e, g, p) =
      push_adds less no_job (job_less-IsOrder b.mode) (waiting b) (job_of item) h in
    let (r, f, q) =
      map-eq-some (map job_of) (push (item_less b.mode) place b.ready item) ys
        (sym (push-view job_of less place (λ i a. refl) b.ready item) ∙ e) in
    (
      r,
      rw f,
      subst (IsHeap less no_job) (sym q) g,
      subst (λ zs. Perm zs (job_of item ∷ waiting b)) (sym q) p,
    )

-- The step of Claim on a backend with work: a job that no waiting job comes before.
pub IsHeap-pop_takes :
    (b : MemoryBackend)
    → IsOrdered b
    → 0 < length b.ready
    → (x : QueueItem) × (r : List QueueItem) × (pop (item_less b.mode) place b.ready ≡ some (x, r))
      × IsHeap (job_less b.mode) no_job (map job_of r)
      × Perm (job_of x ∷ map job_of r) (waiting b)
      × ((j : Job) → Mem j (waiting b) → job_less b.mode j (job_of x) ≡ false)
unfolding item_less job_less place
IsHeap-pop_takes b h pos =
    let less = job_less b.mode in
    let size : length (waiting b) ≡ suc (length b.ready - 1) =
      omega (arith, length-map job_of b.ready) in
    let (y, ys, e, g, p, first) =
      pop_takes less no_job (job_less-IsOrder b.mode) (waiting b) (length b.ready - 1) size h in
    let ((x, r), f, q) =
      map-eq-some (views job_of less place (λ i a. refl)) (pop (item_less b.mode) place b.ready)
        (y, ys) (sym (pop-view job_of less place (λ i a. refl) b.ready) ∙ e) in
    let head : y ≡ job_of x = sym (ap (λ (t : Job × List Job). t.0) q) in
    let rest : ys ≡ map job_of r = sym (ap (λ (t : Job × List Job). t.1) q) in
    (
      x,
      r,
      f,
      subst (IsHeap less no_job) rest g,
      subst (λ (t : Job × List Job). Perm (t.0 ∷ t.1) (waiting b)) (sym q) p,
      λ j m. subst (λ z. less j z ≡ false) head (first j m),
    )
