-- ===== src/Taskqueue/Heap/Views.antt =====
-- The heap moves entries by what `Less` reads of them: `view` forgets the index field, and every
-- operation on entries is the same operation on their views.
use mathlib.Core.Option
use go_asynctasklib.Base.{
  ℕ, zero, suc, ◌+◌, ◌-◌, ◌*◌, ◌≡◌, refl, ap, Bool, List, [], ◌∷◌, ◌++◌, map, length, get_elem?,
  length-map, map-set, map-take, Option-cases, inl, inr, arith,
}
use go_asynctasklib.Base.Int.{ℤ, pos}
use go_asynctasklib.Taskqueue.Heap.{parent, less, swap, up, child, down, push, pop}
use go_asynctasklib.Taskqueue.Heap.Order.{plain}

module _ {ℓ κ} {A : Type ℓ} {B : Type κ} (view : A → B) where
  pub get_elem?-map :
      (xs : List A) (i : ℕ) → get_elem? (map view xs) i ≡ Option.map view (get_elem? xs i)
  get_elem?-map [] i = refl
  get_elem?-map (x ∷ xs) zero = refl
  get_elem?-map (x ∷ xs) (suc i) = get_elem?-map xs i

  map-snoc : (xs : List A) (x : A) → map view (xs ++ x ∷ []) ≡ map view xs ++ view x ∷ []
  map-snoc [] x = refl
  map-snoc (y ∷ xs) x = ap (◌∷◌ (view y)) (map-snoc xs x)

module _ {ℓ κ} {A : Type ℓ} {B : Type κ} (view : A → B) (before : B → B → Bool) (place : ℤ → A → A)
    (kept : (i : ℤ) (a : A) → view (place i a) ≡ view a) where
  abbrev pub before_view : A → A → Bool
  before_view a b = before (view a) (view b)

  less-view :
      (xs : List A) (i j : ℕ) → less before plain (map view xs) i j ≡ less before_view place xs i j
  unfolding less
  less-view xs i j = rw (get_elem?-map view xs i, get_elem?-map view xs j) (ground arith)

  swap-view :
      (xs : List A) (i j : ℕ)
      → swap before plain (map view xs) i j ≡ Option.map (map view) (swap before_view place xs i j)
  unfolding swap
  swap-view xs i j = elim (Option-cases (get_elem? xs i)) [
    | inl e ↦ rw (get_elem?-map view xs i, e)
    | inr (x, e) ↦ elim (Option-cases (get_elem? xs j)) [
      | inl f ↦ rw (get_elem?-map view xs i, get_elem?-map view xs j, e, f)
      | inr (y, f) ↦
          rw (get_elem?-map view xs i, get_elem?-map view xs j, e, f) (simp (map-set, kept))
    ]
  ]

  up-view :
      (k : ℕ) (xs : List A) (j : ℕ)
      → up before plain k (map view xs) j ≡ Option.map (map view) (up before_view place k xs j)
  unfolding up
  up-view zero xs j = refl
  up-view (suc k) xs j = elim (Option-cases (swap before_view place xs (parent j) j)) [
    | inl e ↦ rw (less-view xs j (parent j), swap-view xs (parent j) j, e) (ground arith)
    | inr (ys, e) ↦
        rw (less-view xs j (parent j), swap-view xs (parent j) j, e)
          (ground (arith, up-view k ys (parent j)))
  ]

  child-view :
      (xs : List A) (i n : ℕ)
      → child before plain (map view xs) i n ≡ child before_view place xs i n
  unfolding child
  child-view xs i n = rw (less-view xs (2 * i + 1 + 1) (2 * i + 1))

  down-view :
      (k : ℕ) (xs : List A) (i n : ℕ)
      → down before plain k (map view xs) i n
        ≡ Option.map (map view) (down before_view place k xs i n)
  unfolding down
  down-view zero xs i n = refl
  down-view (suc k) xs i n = elim (Option-cases (child before_view place xs i n)) [
    | inl e ↦ rw (child-view xs i n, e) (ground arith)
    | inr (j, c) ↦ elim (Option-cases (swap before_view place xs i j)) [
      | inl e ↦ rw (child-view xs i n, c, less-view xs j i, swap-view xs i j, e) (ground arith)
      | inr (ys, e) ↦
          rw (child-view xs i n, c, less-view xs j i, swap-view xs i j, e)
            (ground (arith, down-view k ys j n))
    ]
  ]

  pub push-view :
      (xs : List A) (x : A)
      → push before plain (map view xs) (view x)
        ≡ Option.map (map view) (push before_view place xs x)
  unfolding push
  push-view xs x =
      let ys = xs ++ place (pos (length xs)) x ∷ [] in
      let e : map view xs ++ view x ∷ [] ≡ map view ys =
        rw (map-snoc view xs (place (pos (length xs)) x), kept (pos (length xs)) x) in
      rw (e, length-map view ys) (up-view (length ys) ys (length ys - 1))

  abbrev pub views : A × List A → B × List B
  views (x, xs) = (view x, map view xs)

  pub pop-view :
      (xs : List A) → pop before plain (map view xs) ≡ Option.map views (pop before_view place xs)
  unfolding pop
  pop-view xs = elim (Option-cases (swap before_view place xs 0 (length xs - 1))) [
    | inl e ↦ rw (length-map view xs, swap-view xs 0 (length xs - 1), e)
    | inr (ys, e) ↦
        let n = length xs - 1 in
        elim (Option-cases (down before_view place (suc n) ys 0 n)) [
          | inl f ↦ rw (length-map view xs, swap-view xs 0 n, e, down-view (suc n) ys 0 n, f)
          | inr (zs, f) ↦ elim (Option-cases (get_elem? zs n)) [
            | inl g ↦
                rw (length-map view xs, swap-view xs 0 n, e, down-view (suc n) ys 0 n, f)
                  (rw (get_elem?-map view zs n, g))
            | inr (x, g) ↦
                rw (length-map view xs, swap-view xs 0 n, e, down-view (suc n) ys 0 n, f)
                  (rw (get_elem?-map view zs n, g) (simp (kept, map-take)))
          ]
        ]
  ]
