-- ===== src/Taskqueue/Lobby/Transfer.antt =====
-- lobby.go: tasks go through the lobby in order.

use go_asynctasklib.Base.{
  ℕ, List, Option, ◌≡◌, some, ◌∷◌, false, length, [], ◌<◌, ◌+◌, suc, ◌≤◌, ◌++◌, none, arith, zero,
  refl, ap, sym, subst, length-append, ◌∙◌,
}
use go_asynctasklib.Taskqueue.Lobby.{
  submit_task, retrieve_task, push_all, Lobby, admit, Select, submit_now, send, wait_reads, read,
  push_tasks,
}
use go_asynctasklib.Taskqueue.Types.{Task}
use go_asynctasklib.Base.Int.{pos}
use go_asynctasklib.Base.Errors.{ok, err}
use mathlib.Core.List.{append-nil, append_assoc}

-- RetrieveTask again and again without a timeout, as often as asked; `none` at the first that
-- returns an error.
unfoldable pub retrieve_many : ℕ → Lobby → Option (Lobby × List Task)
retrieve_many zero l = some (l, [])
retrieve_many (suc n) l = elim (retrieve_task wait_reads (pos 0) l) [
  | none ↦ none
  | some r ↦ elim r.1 [
    | err e ↦ none
    | ok t ↦ elim (retrieve_many n r.0) [ none ↦ none | some (m, ts) ↦ some (m, t ∷ ts) ]
  ]
]

submit_room :
    (s : Select) (t : Task) (l : Lobby)
    → l.closed ≡ false
    → l.incoming_closed ≡ false
    → length l.incoming < l.capacity
    → submit_task s (some t) (pos 0) l ≡ some (record l { incoming = l.incoming ++ (t ∷ []) }, none)
unfolding submit_task admit submit_now send
submit_room s t l c d room = ground (arith, c, d)

retrieve_first :
    (l : Lobby) (t : Task) (ts : List Task)
    → l.incoming ≡ t ∷ ts
    → retrieve_task wait_reads (pos 0) l ≡ some (record l { incoming = ts }, ok t)
unfolding retrieve_task read
retrieve_first l t ts e = rw (retrieve_task, e, read) refl

push_all_room :
    (s : ℕ → Select) (k : ℕ) (ts : List Task) (l : Lobby)
    → l.closed ≡ false
    → l.incoming_closed ≡ false
    → length l.incoming + length ts ≤ l.capacity
    → push_all s (pos 0) k ts l ≡ some (record l { incoming = l.incoming ++ ts }, none)
unfolding push_all
push_all_room s k [] l c d room =
    ap (λ xs. some (record l { incoming = xs }, none)) (sym (append-nil l.incoming))
push_all_room s k (t ∷ ts) l c d room =
    let next = record l { incoming = l.incoming ++ (t ∷ []) } in
    let fits : length next.incoming + length ts ≤ l.capacity =
      omega (arith, length-append l.incoming (t ∷ [])) in
    let later = push_all_room s (suc k) ts next c d fits in
    rw (push_all, submit_room (s k) t l c d (omega arith))
      (later
        ∙ ap (λ xs. some (record l { incoming = xs }, none)) (append_assoc l.incoming (t ∷ []) ts))

retrieve_many_all :
    (ts : List Task) (l : Lobby)
    → l.incoming ≡ ts
    → retrieve_many (length ts) l ≡ some (record l { incoming = [] }, ts)
unfolding retrieve_many
retrieve_many_all [] l e = ap (λ xs. some (record l { incoming = xs }, [])) e
retrieve_many_all (t ∷ ts) l e =
    rw (retrieve_many, retrieve_first l t ts e)
      (rw (retrieve_many_all ts (record l { incoming = ts }) refl) refl)

-- Round trip: on an open lobby with room for them, PushTasks without a timeout returns nil for the
-- tasks of a yielder that ended well, and retrieving as many tasks as are then there gives those that
-- were in the lobby before and then the pushed ones, in order, and leaves the lobby empty and
-- otherwise as it was.
pub retrieve_many-push_tasks :
    (s : ℕ → Select) (ts : List Task) (l : Lobby)
    → l.closed ≡ false
    → l.incoming_closed ≡ false
    → length l.incoming + length ts ≤ l.capacity
    → (m : Lobby) × (push_tasks none none ts s (pos 0) l ≡ some (m, none))
      × (retrieve_many (length l.incoming + length ts) m
          ≡ some (record l { incoming = [] }, l.incoming ++ ts))
unfolding push_tasks
retrieve_many-push_tasks s ts l c d room =
    let m = record l { incoming = l.incoming ++ ts } in
    (
      m,
      push_all_room s 0 ts l c d room,
      subst (λ n. retrieve_many n m ≡ some (record l { incoming = [] }, l.incoming ++ ts))
          (length-append l.incoming ts) (retrieve_many_all (l.incoming ++ ts) m refl),
    )
