-- ===== src/Taskqueue/Heap/Rise.antt =====
-- `up` repairs a slice in which one entry may have to rise.
use mathlib.Core.List.Perm
use go_asynctasklib.Base.{
  ℕ, zero, suc, ◌<◌, ◌≡◌, ◌≢◌, inl, inr, Bool, true, Option, some, List, Perm, length, get_or, ◌==◌,
  Bool-cases, arith,
}
use go_asynctasklib.Taskqueue.Heap.{parent, up}
use go_asynctasklib.Taskqueue.Heap.Order.{
  IsOrder, plain, Le, IsHeap, less-eq, swapped, length-swapped, swap-eq, get_or-swapped,
  swapped-perm,
}

module _ {ℓ} {A : Type ℓ} (before : A → A → Bool) (d : A) (o : IsOrder before) where
  -- Only the edge above `j` may be out of order.
  pub record RisesAt (xs : List A) (j : ℕ) : Type 0 where
    pub inside : j < length xs
    pub edges :
        (c : ℕ)
        → 0 < c
        → c < length xs
        → c ≢ j
        → Le before d (get_or xs (parent c) d) (get_or xs c d)
    pub past :
        (c : ℕ)
        → 0 < c
        → c < length xs
        → parent c ≡ j
        → 0 < j
        → Le before d (get_or xs (parent j) d) (get_or xs c d)

  rise_step :
      (xs : List A) (j : ℕ)
      → RisesAt xs j
      → 0 < j
      → before (get_or xs j d) (get_or xs (parent j) d) ≡ true
      → RisesAt (swapped before d xs (parent j) j) (parent j)
  rise_step xs j v pos b =
      let i = parent j in
      let at = get_or-swapped before d xs i j (omega arith) v.inside in
      let size = length-swapped before d xs i j in
      let below = o.asym (get_or xs j d) (get_or xs i d) b in
      record {
        inside = omega arith;
        edges = λ c p q r. ground (
          arith,
          at c,
          at (parent c),
          v.edges c,
          v.past c,
          o.trans (get_or xs j d) (get_or xs i d) (get_or xs c d),
        );
        past = λ c p q r s. ground (
          arith,
          at c,
          at (parent i),
          v.edges c,
          v.edges i,
          o.trans (get_or xs (parent i) d) (get_or xs i d) (get_or xs c d),
        );
      }

  abbrev pub Repaired : List A → Option (List A) → Type ℓ
  Repaired xs r = (ys : List A) × (r ≡ some ys) × IsHeap before d ys × Perm ys xs

  pub up_repairs :
      (k : ℕ) (xs : List A) (j : ℕ) → j < k → RisesAt xs j → Repaired xs (up before plain k xs j)
  unfolding up
  up_repairs zero xs j f v = absurd (omega arith)
  up_repairs (suc k) xs j f v = elim (Bool-cases (parent j == j)) [
    | inl root ↦ rw root (xs, ground arith, (λ c p q. v.edges c p q (ground arith)), Perm.rfl)
    | inr inner ↦ elim (Bool-cases (before (get_or xs j d) (get_or xs (parent j) d))) [
      | inl b ↦
          let i = parent j in
          let hi : i < length xs = omega (arith, v.inside) in
          let (ys, e, h, p) =
            up_repairs k (swapped before d xs i j) i (ground arith)
              (rise_step xs j v (ground arith) b) in
          (
            ys,
            rw (inner, less-eq before d xs j i v.inside hi, b, swap-eq before d xs i j hi v.inside)
                e,
            h,
            Perm.trans p (swapped-perm before d xs i j hi v.inside),
          )
      | inr s ↦
          let hi : parent j < length xs = omega (arith, v.inside) in
          (
            xs,
            rw (inner, less-eq before d xs j (parent j) v.inside hi, s) (ground arith),
            (λ c p q. ground (arith, v.edges c)),
            Perm.rfl,
          )
    ]
  ]
