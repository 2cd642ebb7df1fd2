-- ===== src/Taskqueue/Lobby/Pushing.antt =====
-- lobby.go: PushTasks appends a front of the tasks.
use go_asynctasklib.Taskqueue.Lobby.{proceeds}
use go_asynctasklib.Base.{
  ℕ, List, Option, ◌≡◌, some, ◌∷◌, [], suc, ◌++◌, none, arith, refl, ap, sym, subst, take, ◌⊎◌, ◌≢◌,
  ◌∙◌, inr, Bool-cases, inl, if_both, if◌then◌else◌,
}
use go_asynctasklib.Taskqueue.Lobby.{
  submit_task, push_all, Lobby, admit, Select, submit_now, send, push_tasks, submit_wait, ctx_done,
  closing_seen, time_over,
}
use go_asynctasklib.Taskqueue.Types.{Task}
use go_asynctasklib.Base.Int.{pos, ℤ, leb_ℤ}
use go_asynctasklib.Base.Errors.{Error, queue, lobby_closed}
use mathlib.Core.List.{append-nil, append_assoc}

-- What a call that appended the first tasks of a list leaves.
abbrev Appends : List Task → Lobby → Lobby → Option Error → Type 0
Appends ts l m e =
    (k : ℕ) × (m ≡ record l { incoming = l.incoming ++ take k ts })
    × ((take k ts ≡ ts) ⊎ (e ≢ none))

-- One submission: it appends the task and returns nil, or changes nothing and returns an error.
abbrev Submits : Task → Lobby → Lobby → Option Error → Type 0
Submits t l m e =
    ((e ≡ none) × (m ≡ record l { incoming = l.incoming ++ (t ∷ []) })) ⊎ ((m ≡ l) × (e ≢ none))

abbrev SubmitsTo : Task → Lobby → Option (Lobby × Option Error) → Type 0
SubmitsTo t l none = Unit
SubmitsTo t l (some (m, e)) = Submits t l m e

refused : (t : Task) (l : Lobby) (e : Error) → Submits t l l (some e)
refused t l e = inr (refl, λ n. cc)

-- A send with what happens if it does not go through.
send-SubmitsTo :
    (t : Task) (l : Lobby) (default : Option (Lobby × Option Error)) (o : Option Lobby)
    → send t l ≡ o
    → SubmitsTo t l default
    → SubmitsTo t l (elim o as (λ _. Option (Lobby × Option Error)) [
      | none ↦ default
      | some m ↦ some (m, none)
    ])
unfolding send
send-SubmitsTo t l default none e h = h
send-SubmitsTo t l default (some m) e h = inl (refl, ground (arith, e))

submit_now-SubmitsTo : (t : Task) (l : Lobby) → SubmitsTo t l (submit_now t l)
unfolding submit_now
submit_now-SubmitsTo t l =
    if_both (SubmitsTo t l) l.incoming_closed _ _ (λ _. tt)
      (λ _. send-SubmitsTo t l _ (send t l) refl (refused t l _))

submit_wait-SubmitsTo : (s : Select) (t : Task) (l : Lobby) → SubmitsTo t l (submit_wait s t l)
unfolding submit_wait
submit_wait-SubmitsTo (ctx_done e) t l = refused t l e
submit_wait-SubmitsTo closing_seen t l = refused t l _
submit_wait-SubmitsTo time_over t l = refused t l _
submit_wait-SubmitsTo proceeds t l = send-SubmitsTo t l none (send t l) refl tt

submit_task-SubmitsTo :
    (s : Select) (t : Task) (timeout : ℤ) (l : Lobby)
    → SubmitsTo t l (submit_task s (some t) timeout l)
unfolding submit_task admit
submit_task-SubmitsTo s t timeout l = elim (Bool-cases l.closed) [
  | inl e ↦
      let q : submit_task s (some t) timeout l ≡ some (l, some (queue lobby_closed)) =
        ground (arith, e) in
      subst (SubmitsTo t l) (sym q) (refused t l _)
  | inr e ↦
      let q : submit_task s (some t) timeout l
          ≡ (if leb_ℤ timeout (pos 0) then submit_now t l else submit_wait s t l) =
        ground (arith, e) in
      subst (SubmitsTo t l) (sym q) (
        if_both (SubmitsTo t l) (leb_ℤ timeout (pos 0)) _ _ (λ _. submit_now-SubmitsTo t l)
          (λ _. submit_wait-SubmitsTo s t l))
]

abbrev pub PushesTo : List Task → Lobby → Option (Lobby × Option Error) → Type 0
PushesTo ts l none = Unit
PushesTo ts l (some (m, e)) = Appends ts l m e

pushed_more :
    (t : Task) (ts : List Task) (l m : Lobby) (o : Option (Lobby × Option Error))
    → m ≡ record l { incoming = l.incoming ++ (t ∷ []) }
    → PushesTo ts m o
    → PushesTo (t ∷ ts) l o
pushed_more t ts l m none g h = tt
pushed_more t ts l m (some (z, e)) g (k, h, w) =
    let moved : record m { incoming = m.incoming ++ take k ts }
        ≡ record l { incoming = (l.incoming ++ (t ∷ [])) ++ take k ts } =
      ap {A = Lobby} {B = Lobby} (λ u. record u { incoming = u.incoming ++ take k ts }) g in
    let shift : z ≡ record l { incoming = l.incoming ++ take (suc k) (t ∷ ts) } =
      h
      ∙ moved
      ∙ ap {A = List Task} {B = Lobby} (λ xs. record l { incoming = xs })
          (append_assoc l.incoming (t ∷ []) (take k ts)) in
    (
      suc k,
      shift,
      elim w as (λ _. (take (suc k) (t ∷ ts) ≡ t ∷ ts) ⊎ (e ≢ none)) [
        | inl x ↦ inl (ap (λ xs. t ∷ xs) x)
        | inr n ↦ inr n
      ],
    )

-- The first task, then the loop over the others.
push_step :
    (t : Task) (ts : List Task) (l : Lobby) (o : Option (Lobby × Option Error))
    (rest : Lobby → Option (Lobby × Option Error))
    → SubmitsTo t l o
    → ((m : Lobby) → PushesTo ts m (rest m))
    → PushesTo (t ∷ ts) l (elim o as (λ _. Option (Lobby × Option Error)) [
      | none ↦ none
      | some r ↦ elim r.1 as (λ _. Option (Lobby × Option Error)) [
        | some e ↦ some r
        | none ↦ rest r.0
      ]
    ])
push_step t ts l none rest h later = tt
push_step t ts l (some (m, some e)) rest (inl (f, g)) later = absurd cc
push_step t ts l (some (m, some e)) rest (inr (f, g)) later =
    (0, f ∙ ap (λ xs. record l { incoming = xs }) (sym (append-nil l.incoming)), inr g)
push_step t ts l (some (m, none)) rest (inr (f, g)) later = absurd (g refl)
push_step t ts l (some (m, none)) rest (inl (f, g)) later =
    pushed_more t ts l m (rest m) g (later m)

push_all-PushesTo :
    (s : ℕ → Select) (timeout : ℤ) (k : ℕ) (ts : List Task) (l : Lobby)
    → PushesTo ts l (push_all s timeout k ts l)
unfolding push_all
push_all-PushesTo s timeout k [] l =
    (0, ap (λ xs. record l { incoming = xs }) (sym (append-nil l.incoming)), inl refl)
push_all-PushesTo s timeout k (t ∷ ts) l =
    push_step t ts l (submit_task (s k) (some t) timeout l) (push_all s timeout (suc k) ts)
      (submit_task-SubmitsTo (s k) t timeout l) (push_all-PushesTo s timeout (suc k) ts)

unpushed : (ts : List Task) (l : Lobby) (e : Error) → PushesTo ts l (some (l, some e))
unpushed ts l e =
    (0, ap (λ xs. record l { incoming = xs }) (sym (append-nil l.incoming)), inr (λ n. cc))

-- When PushTasks returns, the lobby has got the first of the yielder's tasks, in order, behind those
-- that it had, and all of them unless an error is returned; nothing else has changed. This holds
-- whatever the selects choose, and on a full, closing or closed lobby.
pub push_tasks-PushesTo :
    (ctx failed : Option Error) (ts : List Task) (s : ℕ → Select) (timeout : ℤ) (l : Lobby)
    → PushesTo ts l (push_tasks ctx failed ts s timeout l)
unfolding push_tasks
push_tasks-PushesTo (some e) failed ts s timeout l = unpushed ts l e
push_tasks-PushesTo none (some e) ts s timeout l = unpushed ts l e
push_tasks-PushesTo none none ts s timeout l = push_all-PushesTo s timeout 0 ts l
