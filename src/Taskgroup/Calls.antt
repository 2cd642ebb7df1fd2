-- ===== src/Taskgroup/Calls.antt =====
-- taskgroup.go: Stop and Wait, step by step, between the calls of Submit, the runs of the tasks and
-- the goroutines that release their slots. The slots themselves are in Slots.
mod Flag
pub mod Growing
pub mod Stopping
pub mod Waiting
mod Tests
use go_asynctasklib.Base.{
  ◌∷◌, [], true, false, none, some, ℕ, ◌≡◌, Bool, if◌then◌else◌, ◌⊎◌, suc, ◌==◌, ◌<◌, ◌-◌,
}
use go_asynctasklib.Task.{State, is_in_progress, started}

-- A task of the group: its state, whether its run has entered an end state (the hook of that state
-- may still go on) and its context was canceled, and whether its goroutine has been started and has
-- released the slot.
pub record Entry : Type 0 where
  pub state : State
  pub finished : Bool
  pub canceled : Bool
  pub spawned : Bool
  pub released : Bool

-- A call of Stop: not made, at a task of its copy with the length of the copy, or returned.
pub data Stop : Type 0 where
  not_called returned : Stop
  canceling : ℕ → ℕ → Stop

-- A call of Wait: not made, with the length of its copy and whether releaseWg has been at zero, or
-- returned.
pub data Wait : Type 0 where
  not_waiting has_returned : Wait
  waiting : ℕ → Bool → Wait

-- The slice of the tasks is a function with the length `submitted`; `admitted` counts the calls of
-- Submit that have passed the test of `stopped` and have not ended.
pub record Group : Type 0 where
  pub stopped : Bool
  pub admitted : ℕ
  pub submitted : ℕ
  pub tasks : ℕ → Entry
  pub stop : Stop
  pub wait : Wait

unfoldable pub put : ℕ → Entry → (ℕ → Entry) → ℕ → Entry
put i e f j = if i == j then e else f j

-- The body of the loop of Stop.
unfoldable pub cancel_in_progress : Entry → Entry
cancel_in_progress e = if is_in_progress e.state then record e { canceled = true } else e

-- A task that Go has started is in progress, or its run has ended.
abbrev pub Runs : State → Bool → Type 0
Runs s finished = (finished ≡ true) ⊎ (is_in_progress s ≡ true)

pub data Step (g : Group) : Group → Type 0 where
  admits : g.stopped ≡ false → Step g (record g { admitted = suc g.admitted })
  -- Submit ends with the error of the context or of Go.
  gives_up : 0 < g.admitted → Step g (record g { admitted = g.admitted - 1 })
  appends :
      (s : State) (finished : Bool)
      → 0 < g.admitted
      → Runs s finished
      → Step g (record g {
        admitted = g.admitted - 1;
        submitted = suc g.submitted;
        tasks =
            put g.submitted
              (record {
                state = s;
                finished = finished;
                canceled = false;
                spawned = false;
                released = false;
              })
              g.tasks;
      })
  spawns :
      (i : ℕ)
      → i < g.submitted
      → Step g (record g { tasks = put i (record (g.tasks i) { spawned = true }) g.tasks })
  -- The run of a task goes on, or ends.
  proceeds :
      (i : ℕ) (s : State) (finished : Bool)
      → i < g.submitted
      → Runs s finished
      → (g.tasks i).finished ≡ false
      → Step g (record g {
        tasks = put i (record (g.tasks i) { state = s; finished = finished }) g.tasks;
      })
  releases :
      (i : ℕ)
      → i < g.submitted
      → (g.tasks i).spawned ≡ true
      → (g.tasks i).finished ≡ true
      → Step g (record g { tasks = put i (record (g.tasks i) { released = true }) g.tasks })
  stop_begins :
      (g.stop ≡ not_called) ⊎ (g.stop ≡ returned)
      → Step g (record g { stop = canceling 0 g.submitted })
  stop_cancels :
      (k n : ℕ)
      → g.stop ≡ canceling k n
      → k < n
      → Step g (record g {
        tasks = put k (cancel_in_progress (g.tasks k)) g.tasks;
        stop = canceling (suc k) n;
      })
  stop_ends :
      (n : ℕ) → g.stop ≡ canceling n n → Step g (record g { stopped = true; stop = returned })
  wait_begins :
      (g.wait ≡ not_waiting) ⊎ (g.wait ≡ has_returned)
      → Step g (record g { wait = waiting g.submitted false })
  -- releaseWg.Wait returns.
  wait_sees_zero :
      (n : ℕ) (seen : Bool)
      → g.wait ≡ waiting n seen
      → ((i : ℕ) → i < g.submitted → (g.tasks i).spawned ≡ true → (g.tasks i).released ≡ true)
      → Step g (record g { wait = waiting n true })
  wait_ends :
      (n : ℕ)
      → g.wait ≡ waiting n true
      → ((i : ℕ) → i < n → (g.tasks i).finished ≡ true)
      → Step g (record g { wait = has_returned })

pub data Reach (g : Group) : Group → Type 0 where
  start : Reach g g
  later : {h k : Group} → Reach g h → Step h k → Reach g k

abbrev pub no_task : Entry
no_task = record {
  state = started;
  finished = false;
  canceled = false;
  spawned = false;
  released = false;
}

abbrev pub new_group : Group
new_group = record {
  stopped = false;
  admitted = 0;
  submitted = 0;
  tasks = λ i. no_task;
  stop = not_called;
  wait = not_waiting;
}
