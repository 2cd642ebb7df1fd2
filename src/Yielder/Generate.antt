-- ===== src/Yielder/Generate.antt =====
-- yielder.go: generate over the values of a function, beside a consumer of Results, the end of the
-- context and the calls of Stop and StopErr.

use go_asynctasklib.Yielder.Errors.{
  set_err-kept, fail-kept, fail-Same, set_err-Same, Fits, stop_err-Same, Same-Fits, stop_err-keeps,
}
use go_asynctasklib.Base.{
  List, [], Option, ◌≡◌, ◌++◌, ◌≢◌, some, ◌⊎◌, none, inl, arith, inr, refl, length, ◌<◌, ◌∷◌, true,
  ◌∙◌, ap, sym, ◌≤◌, ℕ, length-append,
}
use go_asynctasklib.Yielder.{
  Generated, Yielder, generates, panics, fail, cancel, finish, stop_err, stop, Settings, make,
}
use go_asynctasklib.Base.Errors.{Error, message, wrapped, yield_error, stopped}
use mathlib.Core.List.{append_assoc}
use go_asynctasklib.Base.Int.{pos_part}

-- Where the goroutine stands: at the call of the function, in the loop with the values left, or at
-- its end.
pub data Phase (A : Type 0) : Type 0 where
  calling : Phase A
  sending : List A → Phase A
  ended : Phase A

module _ {A : Type 0} where
  -- One step, with the values that the consumer has received.
  pub data Move (g : Generated A) (y : Yielder A) (got : List A)
      : Phase A → Yielder A → List A → Phase A → Type 0 where
    panicked : g ≡ panics → Move g y got calling (fail (message 0) y) got ended
    failed :
        {vs : List A} {e : Error}
        → g ≡ generates vs (some e)
        → Move g y got calling (fail (wrapped e) y) got ended
    returned : {vs : List A} → g ≡ generates vs none → Move g y got calling y got (sending vs)
    sent :
        {v : A} {vs : List A}
        → length y.channel < y.buf
        → Move g y got
            (sending (v ∷ vs))
            (record y { channel = y.channel ++ (v ∷ []) })
            got
            (sending vs)
    gave_up :
        {v : A} {vs : List A}
        → y.canceled ≡ true
        → Move g y got (sending (v ∷ vs)) (fail (yield_error stopped) y) got ended
    sent_all : Move g y got (sending []) (finish y) got ended
    received :
        {x : A} {xs : List A} {p : Phase A}
        → y.channel ≡ x ∷ xs
        → Move g y got p (record y { channel = xs }) (got ++ (x ∷ [])) p
    context_ends : {p : Phase A} → Move g y got p (cancel y) got p
    stops : {p : Phase A} → Move g y got p (stop y) got p
    stops_with : {p : Phase A} (e : Option Error) → Move g y got p (stop_err e y) got p

  pub data Reach (g : Generated A) (s : Yielder A) : Yielder A → List A → Phase A → Type 0 where
    start : Reach g s s [] calling
    later :
        {y z : Yielder A} {got now : List A} {p q : Phase A}
        → Reach g s y got p
        → Move g y got p z now q
        → Reach g s z now q

  -- The values that the function returns without an error.
  unfoldable pub produced : Generated A → List A
  produced panics = []
  produced (generates vs none) = vs
  produced (generates vs (some e)) = []

  -- The values received and those in the channel, in order, are the front of the function's values;
  -- at the end they are all of them, or an error is kept.
  abbrev pub Accounts : Generated A → Yielder A → List A → Phase A → Type 0
  Accounts g y got calling = got ++ y.channel ≡ []
  Accounts g y got (sending rest) = (got ++ y.channel) ++ rest ≡ produced g
  Accounts g y got ended =
      (rest : List A) × ((got ++ y.channel) ++ rest ≡ produced g) × ((rest ≡ []) ⊎ (y.kept ≢ none))

  -- The same over any end of the channel, which a receive leaves alone.
  abbrev AccountsFor : Generated A → List A → Option Error → Phase A → Type 0
  AccountsFor g all kept calling = all ≡ []
  AccountsFor g all kept (sending rest) = all ++ rest ≡ produced g
  AccountsFor g all kept ended =
      (rest : List A) × (all ++ rest ≡ produced g) × ((rest ≡ []) ⊎ (kept ≢ none))

  -- What another party does to the error and to the channel leaves the account.
  moved :
      (g : Generated A) (all now : List A) (e f : Option Error) (p : Phase A)
      → now ≡ all
      → (e ≢ none → f ≢ none)
      → AccountsFor g all e p
      → AccountsFor g now f p
  moved g all now e f calling c k h = c ∙ h
  moved g all now e f (sending rest) c k h = ap (λ xs. xs ++ rest) c ∙ h
  moved g all now e f ended c k (rest, h, inl z) = (rest, ap (λ xs. xs ++ rest) c ∙ h, inl z)
  moved g all now e f ended c k (rest, h, inr z) = (rest, ap (λ xs. xs ++ rest) c ∙ h, inr (k z))

  -- An end with an error, with `rest` not sent.
  fail-AccountsFor :
      (g : Generated A) (e : Error) (y : Yielder A) (got rest : List A)
      → (got ++ y.channel) ++ rest ≡ produced g
      → AccountsFor g (got ++ (fail e y).channel) (fail e y).kept ended
  fail-AccountsFor g e y got rest h =
      (rest, ap (λ c. (got ++ c) ++ rest) ((fail-Same e y).0) ∙ h, inr (fail-kept e y))

  Move-AccountsFor :
      {g : Generated A} {y z : Yielder A} {got now : List A} {p q : Phase A}
      → Move g y got p z now q
      → AccountsFor g (got ++ y.channel) y.kept p
      → AccountsFor g (now ++ z.channel) z.kept q
  unfolding produced stop cancel finish
  Move-AccountsFor {g} {y = y} {got = got} (panicked e) h =
      fail-AccountsFor g _ y got [] (ap (λ xs. xs ++ []) h ∙ sym (ap produced e))
  Move-AccountsFor {g} {y = y} {got = got} (failed e) h =
      fail-AccountsFor g _ y got [] (ap (λ xs. xs ++ []) h ∙ sym (ap produced e))
  Move-AccountsFor (returned {vs} e) h = ap (λ xs. xs ++ vs) h ∙ sym (ap produced e)
  Move-AccountsFor {y = y} {got = got} (sent {v} {vs} l) h =
      let shift : (got ++ (y.channel ++ (v ∷ []))) ++ vs ≡ (got ++ y.channel) ++ (v ∷ vs) =
        simp append_assoc in
      shift ∙ h
  Move-AccountsFor {g} {y = y} {got = got} (gave_up {v} {vs} c) h =
      fail-AccountsFor g _ y got (v ∷ vs) h
  Move-AccountsFor sent_all h = ([], h, inl refl)
  Move-AccountsFor {g} {y = y} {got = got} {p = p} (received {x} {xs} c) h =
      moved g (got ++ y.channel) ((got ++ (x ∷ [])) ++ xs) y.kept y.kept p
        (append_assoc got (x ∷ []) xs ∙ ap (λ l. got ++ l) (sym c)) (λ k. k) h
  Move-AccountsFor context_ends h = h
  Move-AccountsFor {g} {y = y} {got = got} {p = p} stops h =
      moved g (got ++ y.channel) _ y.kept _ p (ap (λ l. got ++ l) ((set_err-Same _ y).0))
        (λ _. set_err-kept _ y) h
  Move-AccountsFor {g} {y = y} {got = got} {p = p} (stops_with e) h =
      moved g (got ++ y.channel) _ y.kept _ p (ap (λ l. got ++ l) ((stop_err-Same e y).0))
        (stop_err-keeps e y) h

  Move-Fits :
      {g : Generated A} {y z : Yielder A} {got now : List A} {p q : Phase A} {n : ℕ}
      → Move g y got p z now q
      → Fits n y
      → Fits n z
  unfolding stop cancel finish
  Move-Fits {y = y} {n = n} (panicked e) h = Same-Fits n y (fail (message 0) y) (fail-Same _ y) h
  Move-Fits {y = y} {n = n} (failed {e = x} e) h =
      Same-Fits n y (fail (wrapped x) y) (fail-Same _ y) h
  Move-Fits (returned e) h = h
  Move-Fits {y = y} (sent {v} l) (h, e) = (omega (arith, length-append y.channel (v ∷ [])), e)
  Move-Fits {y = y} {n = n} (gave_up c) h =
      Same-Fits n y (fail (yield_error stopped) y) (fail-Same _ y) h
  Move-Fits sent_all h = h
  Move-Fits (received c) (h, e) = (omega (arith, ap length c), e)
  Move-Fits context_ends h = h
  Move-Fits {y = y} {n = n} stops h = Same-Fits n y (stop y) (set_err-Same _ y) h
  Move-Fits {y = y} {n = n} (stops_with e) h = Same-Fits n y (stop_err e y) (stop_err-Same e y) h

  settled_account :
      (g : Generated A) (y : Yielder A) (got : List A) (p : Phase A)
      → AccountsFor g (got ++ y.channel) y.kept p
      → Accounts g y got p
  settled_account g y got calling h = h
  settled_account g y got (sending rest) h = h
  settled_account g y got ended h = h

  reached_keeps :
      {g : Generated A} {s y : Yielder A} {got : List A} {p : Phase A} {n : ℕ}
      → Reach g s y got p
      → s.channel ≡ []
      → Fits n s
      → AccountsFor g (got ++ y.channel) y.kept p × Fits n y
  reached_keeps start e f = (e, f)
  reached_keeps (later r m) e f =
      let (h, k) = reached_keeps r e f in (Move-AccountsFor m h, Move-Fits m k)

  -- Over any interleaving of generate with a consumer, the end of the context, Stop and StopErr: the
  -- values received, followed by those in the channel, are the front of what the generator function
  -- returns without an error, in its order; when generate has ended they are all of it, unless an
  -- error is kept; and the channel never holds more than its buffer.
  pub Reach-Accounts :
      (s : Settings A) (g : Generated A) (y : Yielder A) (got : List A) (p : Phase A)
      → Reach g (make s) y got p
      → Accounts g y got p × (length y.channel ≤ pos_part s.buf)
  unfolding make
  Reach-Accounts s g y got p r =
      let (h, (l, _)) = reached_keeps {n = pos_part s.buf} r refl (omega arith, refl) in
      (settled_account g y got p h, l)
