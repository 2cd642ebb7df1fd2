-- ===== src/Taskqueue/Lobby.antt =====
-- lobby.go: the bounded staging area for tasks. `none` is a call that blocks for ever, or a panic.
pub mod Transfer
pub mod Pushing
pub mod Closing
pub mod Safety
mod Tests
use go_asynctasklib.Base.{
  ℕ, Bool, true, false, Option, none, some, List, [], ◌∷◌, ◌++◌, length, ltb, if◌then◌else◌, suc,
}
use go_asynctasklib.Base.Int.{ℤ, pos, pos_part, leb_ℤ}
use go_asynctasklib.Base.Errors.{
  Error, queue, lobby_closed, lobby_full, lobby_empty, task_nil, Result, ok, err,
}
use go_asynctasklib.Taskqueue.Types.{Task}
use go_asynctasklib.Yielder.{
  Settings, YielderOption, with_buffer, with_timeout, with_input_channel, new_yielder,
}

-- `incoming` is the channel, oldest task first, with its capacity. The handoff is the settings of
-- its yielder, which reads from `incoming`.
pub record Lobby : Type 0 where
  pub capacity : ℕ
  pub incoming : List Task
  pub incoming_closed : Bool
  pub closing : Bool
  pub closed : Bool
  pub close_timeout : ℤ
  pub handoff : Option (Settings Task)

unfoldable pub new_lobby : ℤ → ℤ → Lobby
new_lobby max_tasks close_timeout = record {
  capacity = (if leb_ℤ max_tasks (pos 0) then 64 else pos_part max_tasks);
  incoming = [];
  incoming_closed = false;
  closing = false;
  closed = false;
  close_timeout = (if leb_ℤ close_timeout (pos 0) then pos 5000000000 else close_timeout);
  handoff = none;
}

-- The case of a select that fires: the context is done with an error, the lobby is closing, the time
-- is over, or the channel operation.
pub data Select : Type 0 where
  ctx_done : Error → Select
  closing_seen time_over proceeds : Select

-- A send: it panics on a closed channel and blocks on a full one.
unfoldable pub send : Task → Lobby → Option Lobby
send t l =
    if l.incoming_closed
    then none
    else (if ltb (length l.incoming) l.capacity
        then some (record l { incoming = l.incoming ++ (t ∷ []) })
        else none)

-- The switch at the head of SubmitTask: the error, or the task.
unfoldable pub admit : Option Task → Lobby → Result Task
admit t l =
    if l.closed
    then err (queue lobby_closed)
    else (elim t [ none ↦ err (queue task_nil) | some x ↦ ok x ])

-- The select without a timeout: a full channel takes the default case.
unfoldable pub submit_now : Task → Lobby → Option (Lobby × Option Error)
submit_now t l =
    if l.incoming_closed
    then none
    else (elim (send t l) [ none ↦ some (l, some (queue lobby_full)) | some m ↦ some (m, none) ])

unfoldable pub submit_wait : Select → Task → Lobby → Option (Lobby × Option Error)
submit_wait (ctx_done e) t l = some (l, some e)
submit_wait closing_seen t l = some (l, some (queue lobby_closed))
submit_wait time_over t l = some (l, some (queue lobby_full))
submit_wait proceeds t l = elim (send t l) [ none ↦ none | some m ↦ some (m, none) ]

unfoldable pub submit_task : Select → Option Task → ℤ → Lobby → Option (Lobby × Option Error)
submit_task s t timeout l = elim (admit t l) [
  | err e ↦ some (l, some e)
  | ok x ↦ if leb_ℤ timeout (pos 0) then submit_now x l else submit_wait s x l
]

-- A read of the channel, with the default for an empty one that is open.
unfoldable pub read :
    Option (Lobby × Result Task) → List Task → Lobby → Option (Lobby × Result Task)
read default (t ∷ ts) l = some (record l { incoming = ts }, ok t)
read default [] l = if l.incoming_closed then some (l, err (queue lobby_closed)) else default

-- The case of RetrieveTask's select that fires.
pub data Wait : Type 0 where
  wait_done : Error → Wait
  wait_over wait_reads : Wait

unfoldable pub retrieve_wait : Wait → Lobby → Option (Lobby × Result Task)
retrieve_wait (wait_done e) l = some (l, err e)
retrieve_wait wait_over l = some (l, err (queue lobby_empty))
retrieve_wait wait_reads l = read none l.incoming l

unfoldable pub retrieve_task : Wait → ℤ → Lobby → Option (Lobby × Result Task)
retrieve_task s timeout l =
    if leb_ℤ timeout (pos 0)
    then read (some (l, err (queue lobby_empty))) l.incoming l
    else retrieve_wait s l

-- The loop over the results of a yielder that has ended; the k-th select is that of the k-th task.
unfoldable pub push_all : (ℕ → Select) → ℤ → ℕ → List Task → Lobby → Option (Lobby × Option Error)
push_all s timeout k [] l = some (l, none)
push_all s timeout k (t ∷ ts) l = elim (submit_task (s k) (some t) timeout l) [
  | none ↦ none
  | some r ↦ elim r.1 [ some e ↦ some r | none ↦ push_all s timeout (suc k) ts r.0 ]
]

-- PushTasks waits for the context or for the end of the yielder, which leaves its error and results.
unfoldable pub push_tasks :
    Option Error
    → Option Error
    → List Task
    → (ℕ → Select)
    → ℤ
    → Lobby
    → Option (Lobby × Option Error)
push_tasks (some e) failed results s timeout l = some (l, some e)
push_tasks none (some e) results s timeout l = some (l, some e)
push_tasks none none results s timeout l = push_all s timeout 0 results l

unfoldable pub fetch_tasks : Option Error → ℤ → ℤ → Result (Settings Task)
fetch_tasks ctx timeout n =
    new_yielder ctx (with_buffer n ∷ with_timeout timeout ∷ with_input_channel ∷ [])

-- The nil yielder is `none`.
unfoldable pub handoff_tasks : Lobby → Option (Settings Task) × Bool
handoff_tasks l = if l.closed then (l.handoff, true) else (none, false)

-- The end of the function that runs once: the handoff is kept if it was made.
unfoldable pub seal : Lobby → Result (Settings Task) → Lobby × Option Error
seal l (err e) = (record l { incoming_closed = true }, some e)
seal l (ok y) = (record l { handoff = some y; incoming_closed = true }, none)

-- The function that runs once, under the lock.
unfoldable pub hand_off : Option Error → Lobby → Lobby × Option Error
hand_off ctx l = seal l (
    new_yielder ctx (
      with_buffer (pos (length l.incoming))
      ∷ with_timeout l.close_timeout
      ∷ with_input_channel
      ∷ []))

unfoldable pub close_context : Option Error → Lobby → Lobby × Option Error
close_context ctx l =
    if l.closed
    then (l, some (queue lobby_closed))
    else hand_off ctx (record l { closed = true; closing = true })
