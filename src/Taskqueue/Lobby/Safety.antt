-- ===== src/Taskqueue/Lobby/Safety.antt =====
-- lobby.go: no send meets the closed channel, and no task is lost.
use go_asynctasklib.Taskqueue.Lobby.{Lobby, admit, send, hand_off, new_lobby, seal}
use go_asynctasklib.Base.{
  ◌≢◌, Bool, ◌≡◌, false, true, Option, ◌++◌, length, ◌≤◌, ◌<◌, ◌-◌, some, ◌∷◌, [], arith, refl, ap,
  subst, ◌⊎◌, ◌∙◌, sym, length-append, inl, Bool-cases, inr,
}
use go_asynctasklib.Taskqueue.Types.{Task}
use go_asynctasklib.Base.Errors.{Error, err, ok, Result}
use go_asynctasklib.Base.Int.{ℤ}
use mathlib.Core.List.{append_assoc}
use go_asynctasklib.Yielder.{Settings}
use go_asynctasklib.Taskqueue.Lobby.Closing.{
  World, Step, Reach, Closer, not_called, stored, announced, locked, finished, enters, is_refused,
  is_admitted, sends, gives_up, takes, stores_closed, closes_closing, locks, hands_off, start,
  later, new_world,
}

abbrev pub is_called : Closer → Bool
is_called not_called = false
is_called _ = true

abbrev pub is_finished : Closer → Bool
is_finished finished = true
is_finished _ = false

-- The channel is closed only behind the last sender, and no task is lost or reordered.
pub record IsSafe (w : World) : Type 0 where
  pub marked : is_called w.closer ≡ true → w.lobby.closed ≡ true
  pub quiet : (w.closer ≡ locked) → (w.entering ≡ 0) × (w.sending ≡ 0)
  pub last : is_finished w.closer ≡ true → w.sending ≡ 0
  pub open_before : is_finished w.closer ≡ false → w.lobby.incoming_closed ≡ false
  pub kept : w.accepted ≡ w.taken ++ w.lobby.incoming
  pub fits : length w.lobby.incoming ≤ w.lobby.capacity

send_lem :
    (t : Task) (l m : Lobby)
    → send t l ≡ some m
    → (record l { incoming = l.incoming ++ (t ∷ []) } ≡ m) × (length l.incoming < l.capacity)
unfolding send
send_lem t l m e = ground (arith, e)

-- What the closer's function leaves of the lobby.
abbrev Sealed : Lobby → Lobby → Type 0
Sealed l m = (m.incoming ≡ l.incoming) × (m.closed ≡ l.closed) × (m.capacity ≡ l.capacity)

seal-Sealed : (l : Lobby) (r : Result (Settings Task)) → Sealed l ((seal l r).0)
unfolding seal
seal-Sealed l (err e) = (refl, refl, refl)
seal-Sealed l (ok y) = (refl, refl, refl)

hand_off-Sealed : (ctx : Option Error) (l : Lobby) → Sealed l ((hand_off ctx l).0)
unfolding hand_off
hand_off-Sealed ctx l = seal-Sealed l _

sends-IsSafe :
    (w : World) (t : Task)
    → IsSafe w
    → 0 < w.sending
    → length w.lobby.incoming < w.lobby.capacity
    → IsSafe (record w {
      lobby = record w.lobby { incoming = w.lobby.incoming ++ (t ∷ []) };
      sending = w.sending - 1;
      accepted = w.accepted ++ (t ∷ []);
    })
sends-IsSafe w t h l room = record {
  marked = h.marked;
  quiet = λ e. absurd (omega (arith, h.quiet e));
  last = λ e. absurd (omega (arith, h.last e));
  open_before = h.open_before;
  kept = ap (λ xs. xs ++ (t ∷ [])) h.kept ∙ append_assoc w.taken w.lobby.incoming (t ∷ []);
  fits = omega (arith, length-append w.lobby.incoming (t ∷ []));
}

finished_called : (c : Closer) → is_finished c ≡ true → is_called c ≡ true
finished_called not_called e = e
finished_called stored e = refl
finished_called announced e = refl
finished_called locked e = refl
finished_called finished e = refl

admit_open : (t : Option Task) (x : Task) (l : Lobby) → admit t l ≡ ok x → l.closed ≢ true
unfolding admit
admit_open t x l e h = ground (arith, e, h)

Step-IsSafe : {w u : World} → Step w u → IsSafe w → IsSafe u
Step-IsSafe (enters e) h = record {
  marked = h.marked;
  quiet = λ k. absurd (e k);
  last = h.last;
  open_before = h.open_before;
  kept = h.kept;
  fits = h.fits;
}
Step-IsSafe {w} (is_refused t e l q) h = record {
  marked = h.marked;
  quiet = λ k. absurd (omega (arith, h.quiet k));
  last = h.last;
  open_before = h.open_before;
  kept = h.kept;
  fits = h.fits;
}
Step-IsSafe {w} (is_admitted t x l q) h = record {
  marked = h.marked;
  quiet = λ k. absurd (omega (arith, h.quiet k));
  last = λ k. absurd (admit_open t x w.lobby q (h.marked (finished_called w.closer k)));
  open_before = h.open_before;
  kept = h.kept;
  fits = h.fits;
}
Step-IsSafe {w} (sends t m l q) h =
    let (e, room) = send_lem t w.lobby m q in
    subst
      (λ x.
        IsSafe (record w { lobby = x; sending = w.sending - 1; accepted = w.accepted ++ (t ∷ []) }))
      e (sends-IsSafe w t h l room)
Step-IsSafe (gives_up l) h = record {
  marked = h.marked;
  quiet = λ k. absurd (omega (arith, h.quiet k));
  last = λ k. absurd (omega (arith, h.last k));
  open_before = h.open_before;
  kept = h.kept;
  fits = h.fits;
}
Step-IsSafe {w} (takes t ts e) h = record {
  marked = h.marked;
  quiet = h.quiet;
  last = h.last;
  open_before = h.open_before;
  kept = h.kept ∙ ap (λ xs. w.taken ++ xs) e ∙ sym (append_assoc w.taken (t ∷ []) ts);
  fits = omega (arith, ap length e, h.fits);
}
Step-IsSafe (stores_closed e) h = record {
  marked = λ _. refl;
  quiet = λ k. absurd cc;
  last = λ k. absurd cc;
  open_before = λ k. h.open_before (rw e refl);
  kept = h.kept;
  fits = h.fits;
}
Step-IsSafe (closes_closing e) h = record {
  marked = λ _. h.marked (rw e refl);
  quiet = λ k. absurd cc;
  last = λ k. absurd cc;
  open_before = λ k. h.open_before (rw e refl);
  kept = h.kept;
  fits = h.fits;
}
Step-IsSafe (locks e f g) h = record {
  marked = λ _. h.marked (rw e refl);
  quiet = λ _. (f, g);
  last = λ _. g;
  open_before = λ k. h.open_before (rw e refl);
  kept = h.kept;
  fits = h.fits;
}
Step-IsSafe {w} (hands_off ctx e) h =
    let (same, closed, room) = hand_off-Sealed ctx w.lobby in
    let (_, none_left) = h.quiet e in
    record {
      marked = λ _. closed ∙ h.marked (rw e refl);
      quiet = λ k. absurd cc;
      last = λ _. none_left;
      open_before = λ k. absurd cc;
      kept = h.kept ∙ ap (λ xs. w.taken ++ xs) (sym same);
      fits = omega (arith, ap length same, room, h.fits);
    }

Reach-IsSafe : {w u : World} → Reach w u → IsSafe w → IsSafe u
Reach-IsSafe start h = h
Reach-IsSafe (later r s) h = Step-IsSafe s (Reach-IsSafe r h)

new_world-IsSafe : (max_tasks close_timeout : ℤ) → IsSafe (new_world max_tasks close_timeout)
unfolding new_lobby
new_world-IsSafe max_tasks close_timeout = record {
  marked = λ e. absurd cc;
  quiet = λ e. absurd cc;
  last = λ e. absurd cc;
  open_before = λ _. refl;
  kept = refl;
  fits = omega arith;
}

never_panics :
    (w : World)
    → IsSafe w
    → (is_finished w.closer ≡ true) ⊎ (is_finished w.closer ≡ false)
    → (w.lobby.incoming_closed ≡ false) ⊎ (w.sending ≡ 0)
never_panics w h (inl e) = inr (h.last e)
never_panics w h (inr e) = inl (h.open_before e)

-- Over any interleaving of SubmitTask, reads of the channel and the closing of a new lobby, no send
-- is under way once the channel is closed, so none panics; the tasks accepted are those taken and
-- then those in the channel, in order; and the channel never holds more than its capacity.
pub lobby_is_safe :
    (max_tasks close_timeout : ℤ) (w : World)
    → Reach (new_world max_tasks close_timeout) w
    → ((w.lobby.incoming_closed ≡ false) ⊎ (w.sending ≡ 0))
      × (w.accepted ≡ w.taken ++ w.lobby.incoming)
      × (length w.lobby.incoming ≤ w.lobby.capacity)
lobby_is_safe max_tasks close_timeout w r =
    let h = Reach-IsSafe r (new_world-IsSafe max_tasks close_timeout) in
    (never_panics w h (Bool-cases (is_finished w.closer)), h.kept, h.fits)
