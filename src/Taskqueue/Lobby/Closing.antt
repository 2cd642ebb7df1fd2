-- ===== src/Taskqueue/Lobby/Closing.antt =====
-- lobby.go: SubmitTask, RetrieveTask and CloseContext in any interleaving. A sender holds the read
-- lock from its entry to its end, and the closer takes the write lock before it closes the channel.

use go_asynctasklib.Taskqueue.Lobby.{Lobby, admit, send, hand_off, new_lobby}
use go_asynctasklib.Base.{◌≢◌, ◌≡◌, ℕ, suc, true, List, Option, ◌++◌, ◌<◌, ◌-◌, some, ◌∷◌, []}
use go_asynctasklib.Taskqueue.Types.{Task}
use go_asynctasklib.Base.Errors.{Error, err, ok}
use go_asynctasklib.Base.Int.{ℤ}

-- Where the call of CloseContext that runs the once stands.
pub data Closer : Type 0 where
  not_called stored announced locked finished : Closer

-- The lobby with the senders that hold the read lock before and behind the test of `closed`, and the
-- tasks that were accepted and taken so far.
pub record World : Type 0 where
  pub lobby : Lobby
  pub entering : ℕ
  pub sending : ℕ
  pub closer : Closer
  pub accepted : List Task
  pub taken : List Task

pub data Step (w : World) : World → Type 0 where
  -- The read lock is free unless the closer has the write lock.
  enters : w.closer ≢ locked → Step w (record w { entering = suc w.entering })
  is_refused :
      (t : Option Task) (e : Error)
      → 0 < w.entering
      → admit t w.lobby ≡ err e
      → Step w (record w { entering = w.entering - 1 })
  is_admitted :
      (t : Option Task) (x : Task)
      → 0 < w.entering
      → admit t w.lobby ≡ ok x
      → Step w (record w { entering = w.entering - 1; sending = suc w.sending })
  sends :
      (t : Task) (l : Lobby)
      → 0 < w.sending
      → send t w.lobby ≡ some l
      → Step w (record w { lobby = l; sending = w.sending - 1; accepted = w.accepted ++ (t ∷ []) })
  gives_up : 0 < w.sending → Step w (record w { sending = w.sending - 1 })
  takes :
      (t : Task) (ts : List Task)
      → w.lobby.incoming ≡ t ∷ ts
      → Step w (record w { lobby = record w.lobby { incoming = ts }; taken = w.taken ++ (t ∷ []) })
  stores_closed :
      w.closer ≡ not_called
      → Step w (record w { lobby = record w.lobby { closed = true }; closer = stored })
  closes_closing :
      w.closer ≡ stored
      → Step w (record w { lobby = record w.lobby { closing = true }; closer = announced })
  locks :
      w.closer ≡ announced → w.entering ≡ 0 → w.sending ≡ 0 → Step w (record w { closer = locked })
  hands_off :
      (ctx : Option Error)
      → w.closer ≡ locked
      → Step w (record w { lobby = (hand_off ctx w.lobby).0; closer = finished })

pub data Reach (w : World) : World → Type 0 where
  start : Reach w w
  later : {u v : World} → Reach w u → Step u v → Reach w v

abbrev pub new_world : ℤ → ℤ → World
new_world max_tasks close_timeout = record {
  lobby = new_lobby max_tasks close_timeout;
  entering = 0;
  sending = 0;
  closer = not_called;
  accepted = [];
  taken = [];
}
