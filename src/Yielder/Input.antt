-- ===== src/Yielder/Input.antt =====
-- yielder.go: the loop of WithInputChannel, beside a consumer of Results, the producer of the input,
-- the other readers of that channel, the end of the context, Stop and StopErr.

use go_asynctasklib.Base.{
  List, Bool, ◌≡◌, false, ◌∷◌, ◌++◌, [], true, length, ◌≤◌, ◌≢◌, none, ◌<◌, Option, ◌∙◌, ap, ℕ, sym,
  arith, length-append, refl,
}
use go_asynctasklib.Yielder.{Yielder, stop, cancel, finish, fail, stop_err, make, Settings}
use go_asynctasklib.Base.Errors.{wrapped, yield_error, input_closed, stopped, Error}
use mathlib.Core.List.{append-nil, append_assoc}
use go_asynctasklib.Yielder.Errors.{
  Fits, fail-Same, Same-Fits, fail-kept, set_err-Same, set_err-kept, stop_err-Same, stop_err-keeps,
}
use go_asynctasklib.Base.Int.{pos_part}

-- Where the goroutine stands: at the outer select, with a value in hand at the inner one, or at its
-- end.
pub data Phase (A : Type 0) : Type 0 where
  taking : Phase A
  holding : A → Phase A
  ended : Phase A

-- The input channel with the value that each read took, and what the consumer received; `dropped`
-- are values that the goroutine took and did not send.
pub record Flow (A : Type 0) : Type 0 where
  pub waiting : List A
  pub input_closed : Bool
  pub taken : List A
  pub received : List A
  pub dropped : List A

module _ {A : Type 0} where
  pub data Move (y : Yielder A) (f : Flow A) : Phase A → Yielder A → Flow A → Phase A → Type 0 where
    takes :
        {x : A} {xs : List A}
        → f.waiting ≡ x ∷ xs
        → Move y f taking y (record f { waiting = xs; taken = f.taken ++ (x ∷ []) }) (holding x)
    finds_closed :
        f.waiting ≡ []
        → f.input_closed ≡ true
        → Move y f taking (fail (wrapped (yield_error input_closed)) y) f ended
    gives_up : y.canceled ≡ true → Move y f taking (fail (wrapped (yield_error stopped)) y) f ended
    sends :
        {x : A}
        → length y.channel < y.buf
        → Move y f (holding x) (record y { channel = y.channel ++ (x ∷ []) }) f taking
    drops :
        {x : A}
        → y.canceled ≡ true
        → Move y f
            (holding x)
            (fail (wrapped (yield_error stopped)) y)
            (record f { dropped = x ∷ [] })
            ended
    receives :
        {x : A} {xs : List A} {p : Phase A}
        → y.channel ≡ x ∷ xs
        → Move y f p (record y { channel = xs }) (record f { received = f.received ++ (x ∷ []) }) p
    feeds :
        {p : Phase A} (x : A)
        → f.input_closed ≡ false
        → Move y f p y (record f { waiting = f.waiting ++ (x ∷ []) }) p
    closes_input : {p : Phase A} → Move y f p y (record f { input_closed = true }) p
    others_take :
        {x : A} {xs : List A} {p : Phase A}
        → f.waiting ≡ x ∷ xs
        → Move y f p y (record f { waiting = xs }) p
    context_ends : {p : Phase A} → Move y f p (cancel y) f p
    stops : {p : Phase A} → Move y f p (stop y) f p
    stops_with : {p : Phase A} (e : Option Error) → Move y f p (stop_err e y) f p

  abbrev pub fresh_flow : List A → Flow A
  fresh_flow xs = record {
    waiting = xs;
    input_closed = false;
    taken = [];
    received = [];
    dropped = [];
  }

  pub data Reach (s : Yielder A) (xs : List A) : Yielder A → Flow A → Phase A → Type 0 where
    start : Reach s xs s (fresh_flow xs) taking
    later :
        {y z : Yielder A} {f g : Flow A} {p q : Phase A}
        → Reach s xs y f p
        → Move y f p z g q
        → Reach s xs z g q

  -- Every value that was taken is received, in the channel, in hand or dropped, in order; one at most
  -- is dropped, at the end; and the end leaves an error.
  abbrev AccountsFor : List A → List A → List A → Option Error → Phase A → Type 0
  AccountsFor taken sent dropped kept taking = (taken ≡ sent) × (dropped ≡ [])
  AccountsFor taken sent dropped kept (holding x) = (taken ≡ sent ++ (x ∷ [])) × (dropped ≡ [])
  AccountsFor taken sent dropped kept ended =
      (taken ≡ sent ++ dropped) × (length dropped ≤ 1) × (kept ≢ none)

  abbrev pub Accounts : Yielder A → Flow A → Phase A → Type 0
  Accounts y f p = AccountsFor f.taken (f.received ++ y.channel) f.dropped y.kept p

  moved :
      (taken sent now dropped : List A) (e k : Option Error) (p : Phase A)
      → now ≡ sent
      → (e ≢ none → k ≢ none)
      → AccountsFor taken sent dropped e p
      → AccountsFor taken now dropped k p
  moved taken sent now dropped e k taking c m (h, d) = (h ∙ sym c, d)
  moved taken sent now dropped e k (holding x) c m (h, d) = (h ∙ ap (λ l. l ++ (x ∷ [])) (sym c), d)
  moved taken sent now dropped e k ended c m (h, d, n) =
      (h ∙ ap (λ l. l ++ dropped) (sym c), d, m n)

  -- The end with an error, of a value in hand or of none.
  fail-Accounts :
      (e : Error) (y : Yielder A) (taken received dropped : List A)
      → taken ≡ (received ++ y.channel) ++ dropped
      → length dropped ≤ 1
      → AccountsFor taken (received ++ (fail e y).channel) dropped (fail e y).kept ended
  fail-Accounts e y taken received dropped h l =
      (h ∙ ap (λ c. (received ++ c) ++ dropped) (sym ((fail-Same e y).0)), l, fail-kept e y)

  Move-Accounts :
      {y z : Yielder A} {f g : Flow A} {p q : Phase A}
      → Move y f p z g q
      → Accounts y f p
      → Accounts z g q
  unfolding stop cancel finish
  Move-Accounts (takes {x} e) (h, d) = (ap (λ l. l ++ (x ∷ [])) h, d)
  Move-Accounts {y} {f = f} (finds_closed e k) (h, d) =
      fail-Accounts _ y f.taken f.received f.dropped (rw (d, append-nil) h) (rw d (omega arith))
  Move-Accounts {y} {f = f} (gives_up e) (h, d) =
      fail-Accounts _ y f.taken f.received f.dropped (rw (d, append-nil) h) (rw d (omega arith))
  Move-Accounts {y} {f = f} (sends {x} l) (h, d) =
      (h ∙ append_assoc f.received y.channel (x ∷ []), d)
  Move-Accounts {y} {f = f} (drops {x} e) (h, d) =
      fail-Accounts _ y f.taken f.received (x ∷ []) h (omega arith)
  Move-Accounts {y} {f = f} {p = p} (receives {x} {xs} e) h =
      moved f.taken (f.received ++ y.channel) _ f.dropped y.kept y.kept p
        (append_assoc f.received (x ∷ []) xs ∙ ap (λ l. f.received ++ l) (sym e)) (λ k. k) h
  Move-Accounts (feeds x e) h = h
  Move-Accounts closes_input h = h
  Move-Accounts (others_take e) h = h
  Move-Accounts context_ends h = h
  Move-Accounts {y} {f = f} {p = p} stops h =
      moved f.taken (f.received ++ y.channel) _ f.dropped y.kept _ p
        (ap (λ l. f.received ++ l) ((set_err-Same _ y).0)) (λ _. set_err-kept _ y) h
  Move-Accounts {y} {f = f} {p = p} (stops_with e) h =
      moved f.taken (f.received ++ y.channel) _ f.dropped y.kept _ p
        (ap (λ l. f.received ++ l) ((stop_err-Same e y).0)) (stop_err-keeps e y) h

  Move-Fits :
      {y z : Yielder A} {f g : Flow A} {p q : Phase A} {n : ℕ}
      → Move y f p z g q
      → Fits n y
      → Fits n z
  unfolding stop cancel finish
  Move-Fits (takes e) h = h
  Move-Fits {y} {n = n} (finds_closed e k) h = Same-Fits n y (fail _ y) (fail-Same _ y) h
  Move-Fits {y} {n = n} (gives_up e) h = Same-Fits n y (fail _ y) (fail-Same _ y) h
  Move-Fits {y} (sends {x} l) (h, b) = (omega (arith, length-append y.channel (x ∷ [])), b)
  Move-Fits {y} {n = n} (drops e) h = Same-Fits n y (fail _ y) (fail-Same _ y) h
  Move-Fits (receives e) (h, b) = (omega (arith, ap length e), b)
  Move-Fits (feeds x e) h = h
  Move-Fits closes_input h = h
  Move-Fits (others_take e) h = h
  Move-Fits context_ends h = h
  Move-Fits {y} {n = n} stops h = Same-Fits n y (stop y) (set_err-Same _ y) h
  Move-Fits {y} {n = n} (stops_with e) h = Same-Fits n y (stop_err e y) (stop_err-Same e y) h

  reached_keeps :
      {s : Yielder A} {xs : List A} {y : Yielder A} {f : Flow A} {p : Phase A} {n : ℕ}
      → Reach s xs y f p
      → s.channel ≡ []
      → Fits n s
      → Accounts y f p × Fits n y
  reached_keeps start e h = ((sym e, refl), h)
  reached_keeps (later r m) e h =
      let (a, b) = reached_keeps r e h in (Move-Accounts m a, Move-Fits m b)

  -- Over any interleaving of the loop with the producer of the input, its other readers, a consumer,
  -- the end of the context, Stop and StopErr: the values that the loop took from the input are those
  -- received, those in the channel and the one in hand, in order; at the end one value at most is
  -- dropped, and an error is kept, whether the context ended or the input was closed; and the channel
  -- never holds more than its buffer.
  pub Reach-Accounts_input :
      (s : Settings A) (xs : List A) (y : Yielder A) (f : Flow A) (p : Phase A)
      → Reach (make s) xs y f p
      → Accounts y f p × (length y.channel ≤ pos_part s.buf)
  unfolding make
  Reach-Accounts_input s xs y f p r =
      let (h, (l, _)) = reached_keeps {n = pos_part s.buf} r refl (omega arith, refl) in (h, l)
