-- ===== src/Workerpool/Closing/Leaves.antt =====
-- pool.go: close leaves no joined worker subscribed.
use go_asynctasklib.Workerpool.Closing.{wait_end, leave, joined_workers, leave_all, close_workers}
use go_asynctasklib.Workerpool.Worker.{
  Worker, begin_leave, end_leave, unsubscribed_with, cancel_joined, notify, unsubscribed,
}
use go_asynctasklib.Workerpool.Claims.{Claims, unsubscribe}
use go_asynctasklib.Base.Table
use go_asynctasklib.Base.{◌∷◌, [], none, some, true, false, if_both, subst}
use go_asynctasklib.Base.{
  ℕ, List, Bool, true, ◌≡◌, none, some, false, Option, if◌then◌else◌, refl, ap, ◌==◌, ◌∙◌,
  Option-cases, arith, inl, inr,
}
use go_asynctasklib.Base.Int.{ℤ}
use go_asynctasklib.Base.Errors.{Error}
use go_asynctasklib.Workerpool.Ticks.{Present}

unchanged :
    (i j : ℕ) (c : Claims)
    → Table.lookup i c.subscribers ≡ none
    → Table.lookup j c.subscribers ≡ (if i == j then none else Table.lookup j c.subscribers)
unchanged i j c e =
    if_both (λ x. Table.lookup j c.subscribers ≡ x) (i == j) none (Table.lookup j c.subscribers)
      (λ q. subst (λ x. Table.lookup x c.subscribers ≡ none) (ground (arith, q)) e) (λ _. refl)

-- Two lookups behind each other.
either_none :
    (a b : Bool) (x y : Option Present)
    → y ≡ (if a then none else x)
    → (if b then none else y) ≡ (if (if a then true else b) then none else x)
either_none true true x y h = refl
either_none true false x y h = h
either_none false true x y h = refl
either_none false false x y h = h

unsubscribe_lem :
    (i : ℕ) (c : Claims)
    → (d : Claims) × (unsubscribe (some i) c ≡ (d, none))
      × ((j : ℕ)
          → Table.lookup j d.subscribers ≡ (if i == j then none else Table.lookup j c.subscribers))
unfolding unsubscribe
unsubscribe_lem i c = elim (Option-cases (Table.lookup i c.subscribers)) [
  | inl e ↦ (c, ground (arith, e), λ j. unchanged i j c e)
  | inr (p, e) ↦ (
    record c { subscribers = Table.delete i c.subscribers },
    ground (arith, e),
    λ j. Table.lookup-delete i j c.subscribers,
  )
]

module _ {J : Type 0} where
  -- The ID is that of one of the workers.
  abbrev pub among : ℕ → List (Worker J) → Bool
  among i [] = false
  among i (w ∷ ws) = if w.id == i then true else among i ws

  abbrev pub AllJoined : List (Worker J) → Type 0
  AllJoined [] = Unit
  AllJoined (w ∷ ws) = (w.joined ≡ true) × AllJoined ws

  abbrev pub AllCanceled : List (Worker J) → Type 0
  AllCanceled [] = Unit
  AllCanceled (w ∷ ws) = (w.canceled ≡ true) × AllCanceled ws

  end_leave-canceled :
      (ended : Bool) (timeout : ℤ) (w : Worker J)
      → (end_leave ended timeout w).0.canceled ≡ w.canceled
  unfolding end_leave notify
  end_leave-canceled true timeout w = refl
  end_leave-canceled false timeout w = refl

  -- The worker that leave has canceled.
  abbrev gone : Worker J → Worker J
  gone w = record (notify (unsubscribed w.id) w) { canceled = true }

  begin_leave_joined :
      (c d : Claims) (w : Worker J)
      → w.joined ≡ true
      → unsubscribe (some w.id) c ≡ (d, none)
      → begin_leave (some c) w ≡ some (gone w, some d, none)
  unfolding begin_leave unsubscribed_with cancel_joined notify
  begin_leave_joined c d w j e = ap (unsubscribed_with w) e ∙ ground (arith, j)

  leave_joined :
      (ended : Bool) (timeout : ℤ) (c : Claims) (w : Worker J)
      → w.joined ≡ true
      → (v : Worker J) × (d : Claims) × (e : Option Error) × (leave ended timeout c w
          ≡ some (v, d, e))
        × (v.canceled ≡ true)
        × ((j : ℕ)
            → Table.lookup j d.subscribers
              ≡ (if w.id == j then none else Table.lookup j c.subscribers))
  unfolding leave wait_end
  leave_joined ended timeout c w j =
      let (d, e, h) = unsubscribe_lem w.id c in
      let r = end_leave ended timeout (gone w) in
      (
        r.0,
        d,
        r.1,
        rw (leave, begin_leave_joined c d w j e) refl,
        end_leave-canceled ended timeout (gone w),
        h,
      )

  abbrev pub Leaves : List (Worker J) → Claims → Option (List (Worker J) × Claims) → Type 0
  Leaves ws c o =
      (vs : List (Worker J)) × (d : Claims) × (o ≡ some (vs, d))
      × AllCanceled vs
      × ((j : ℕ)
          → Table.lookup j d.subscribers
            ≡ (if among j ws then none else Table.lookup j c.subscribers))

  leave_all-Leaves :
      (ended : ℕ → Bool) (timeout : ℤ) (ws : List (Worker J)) (c : Claims)
      → AllJoined ws
      → Leaves ws c (leave_all ended timeout ws c)
  unfolding leave_all
  leave_all-Leaves ended timeout [] c h = ([], c, refl, tt, λ j. refl)
  leave_all-Leaves ended timeout (w ∷ ws) c (j, h) =
      let (v, d, e, left, off, k) = leave_joined (ended w.id) timeout c w j in
      let (vs, f, rest, offs, m) = leave_all-Leaves ended timeout ws d h in
      (
        v ∷ vs,
        f,
        rw (left, rest) refl,
        (off, offs),
        λ i. m i ∙ either_none (w.id == i) (among i ws) _ _ (k i),
      )

  -- Where the workers whose ID is in the set have a context to cancel, the end of close never
  -- panics: it cancels each of them, whichever loops are over in time, and leaves none of their IDs
  -- subscribed and every other as it was.
  pub close_workers-Leaves :
      (ended : ℕ → Bool) (timeout : ℤ) (ids : List (ℕ × Present)) (ws : List (Worker J))
      (c : Claims)
      → AllJoined (joined_workers ids ws)
      → Leaves (joined_workers ids ws) c (close_workers ended timeout ids ws c)
  unfolding close_workers
  close_workers-Leaves ended timeout ids ws c h =
      leave_all-Leaves ended timeout (joined_workers ids ws) c h
