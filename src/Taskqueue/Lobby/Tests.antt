-- ===== src/Taskqueue/Lobby/Tests.antt =====
-- The lobby on small inputs.
use go_asynctasklib.Taskqueue.Lobby.{
  Lobby, new_lobby, submit_task, submit_wait, submit_now, admit, send, push_tasks, hand_off, seal,
  proceeds, time_over,
}
use go_asynctasklib.Taskqueue.Lobby.Transfer.{retrieve_many, retrieve_many-push_tasks}
use go_asynctasklib.Taskqueue.Lobby.Pushing.{PushesTo, push_tasks-PushesTo}
use go_asynctasklib.Taskqueue.Lobby.Safety.{lobby_is_safe}
use go_asynctasklib.Taskqueue.Lobby.Closing.{
  World, Reach, not_called, finished, start, later, enters, is_admitted, sends, takes,
  stores_closed, closes_closing, locks, hands_off, new_world, locked,
}
use go_asynctasklib.Yielder.{
  new_yielder, apply_options, apply_option, require_generator, with_defaults, input,
}
use go_asynctasklib.Taskqueue.Types.{Task}
use go_asynctasklib.Base.{◌∷◌, some, none, [], true, false, ◌≡◌, arith, refl, ◌⊎◌, ◌≤◌, ◌≢◌}
use go_asynctasklib.Base.Int.{pos}
use go_asynctasklib.Base.Errors.{queue, lobby_full}

abbrev task_a : Task
task_a = record { id = 1; seq = 1; priority = 1 }

abbrev task_b : Task
task_b = record { id = 2; seq = 2; priority = 3 }

abbrev one_waits : Lobby
one_waits = record {
  capacity = 2;
  incoming = task_a ∷ [];
  incoming_closed = false;
  closing = false;
  closed = false;
  close_timeout = pos 5000000000;
  handoff = none;
}

full_run :
    submit_task proceeds (some task_b) (pos 0) (record one_waits { capacity = 1 })
    ≡ some (record one_waits { capacity = 1 }, some (queue lobby_full))
unfolding submit_task admit submit_now send
full_run = refl

-- With a timeout a full channel blocks until another case fires.
blocked_run : submit_task proceeds (some task_b) (pos 9) (record one_waits { capacity = 1 }) ≡ none
unfolding submit_task admit submit_wait send
blocked_run = refl

retrieve_many-push_tasks_example :
    (m : Lobby) × (push_tasks none none (task_b ∷ []) (λ _. proceeds) (pos 0) one_waits
      ≡ some (m, none))
    × (retrieve_many 2 m ≡ some (record one_waits { incoming = [] }, task_a ∷ task_b ∷ []))
retrieve_many-push_tasks_example =
    retrieve_many-push_tasks (λ _. proceeds) (task_b ∷ []) one_waits refl refl (omega arith)

-- The second task does not fit.
push_tasks-PushesTo_example :
    PushesTo
      (task_b ∷ task_a ∷ [])
      one_waits
      (push_tasks none none (task_b ∷ task_a ∷ []) (λ _. time_over) (pos 0) one_waits)
push_tasks-PushesTo_example =
    push_tasks-PushesTo none none (task_b ∷ task_a ∷ []) (λ _. time_over) (pos 0) one_waits

-- A task is sent, the lobby closes behind its sender, and then the task is taken.
abbrev closed_world : World
closed_world = record {
  lobby = record {
    capacity = 2;
    incoming = [];
    incoming_closed = true;
    closing = true;
    closed = true;
    close_timeout = pos 7;
    handoff = some (record { fn = some input; timeout = pos 7; buf = pos 1 });
  };
  entering = 0;
  sending = 0;
  closer = finished;
  accepted = task_a ∷ [];
  taken = task_a ∷ [];
}

unlocked : not_called ≢ locked
unlocked e = cc

closed_reached : Reach (new_world (pos 2) (pos 7)) closed_world
unfolding new_lobby admit send hand_off seal new_yielder apply_options apply_option
    require_generator with_defaults
closed_reached =
    let sent =
      later
        (later (later start (enters unlocked))
          (is_admitted (some task_a) task_a (omega arith) refl))
        (sends task_a _ (omega arith) refl) in
    let announced = later (later sent (stores_closed refl)) (closes_closing refl) in
    later (later (later announced (locks refl refl refl)) (hands_off none refl))
      (takes task_a [] refl)

lobby_is_safe_example :
    ((closed_world.lobby.incoming_closed ≡ false) ⊎ (closed_world.sending ≡ 0))
    × (task_a ∷ [] ≡ task_a ∷ [])
    × (0 ≤ 2)
lobby_is_safe_example = lobby_is_safe (pos 2) (pos 7) closed_world closed_reached
