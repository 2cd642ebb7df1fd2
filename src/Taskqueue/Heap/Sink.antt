-- ===== src/Taskqueue/Heap/Sink.antt =====
-- `down` repairs the first `n` entries of a slice in which one entry may have to sink.
use mathlib.Core.List.Perm
use go_asynctasklib.Base.{
  ℕ, zero, suc, ◌+◌, ◌*◌, ◌≤◌, ◌<◌, ◌≡◌, ◌≢◌, refl, ◌⊎◌, inl, inr, Bool, true, Option, some, List,
  Perm, length, get_or, ltb, Bool-cases, arith,
}
use go_asynctasklib.Taskqueue.Heap.{parent, child, down}
use go_asynctasklib.Taskqueue.Heap.Order.{
  IsOrder, plain, Le, IsHeapTo, less-eq, swapped, length-swapped, swap-eq, get_or-swapped,
  swapped-perm, irrefl,
}

module _ {ℓ} {A : Type ℓ} (before : A → A → Bool) (d : A) (o : IsOrder before) where
  -- Only the edges below `i` may be out of order.
  pub record SinksAt (n : ℕ) (xs : List A) (i : ℕ) : Type 0 where
    pub edges :
        (c : ℕ)
        → 0 < c
        → c < n
        → parent c ≢ i
        → Le before d (get_or xs (parent c) d) (get_or xs c d)
    pub past :
        (c : ℕ)
        → 0 < c
        → c < n
        → parent c ≡ i
        → 0 < i
        → Le before d (get_or xs (parent i) d) (get_or xs c d)

  -- `j` is a child of `i` that no child of `i` comes before.
  record FirstChild (n : ℕ) (xs : List A) (i j : ℕ) : Type 0 where
    inside : j < n
    which : (j ≡ 2 * i + 1) ⊎ (j ≡ 2 * i + 2)
    first : (c : ℕ) → 0 < c → c < n → parent c ≡ i → Le before d (get_or xs j d) (get_or xs c d)

  children : (c i : ℕ) → 0 < c → parent c ≡ i → (c ≡ 2 * i + 1) ⊎ (c ≡ 2 * i + 1 + 1)
  children c i p e = omega arith

  abbrev Chooses : ℕ → List A → ℕ → Option ℕ → Type 0
  Chooses n xs i r = (j : ℕ) × (r ≡ some j) × FirstChild n xs i j

  child_first :
      (xs : List A) (i n : ℕ)
      → n ≤ length xs
      → 2 * i + 1 < n
      → Chooses n xs i (child before plain xs i n)
  unfolding child
  child_first xs i n size h =
      let left = 2 * i + 1 in
      let right = left + 1 in
      elim (Bool-cases (ltb right n)) [
        | inr one ↦ (
          left,
          rw one,
          record {
            inside = h;
            which = omega arith;
            first =
                λ c p q r. ground (arith, children c i p r, irrefl before d o (get_or xs left d));
          },
        )
        | inl two ↦
            let hr : right < length xs = ground arith in
            let hl : left < length xs = omega arith in
            elim (Bool-cases (before (get_or xs right d) (get_or xs left d))) [
              | inl b ↦ (
                right,
                rw (two, less-eq before d xs right left hr hl, b),
                record {
                  inside = ground arith;
                  which = omega arith;
                  first = λ c p q r. ground (
                    arith,
                    children c i p r,
                    o.asym (get_or xs right d) (get_or xs left d) b,
                    irrefl before d o (get_or xs right d),
                  );
                },
              )
              | inr s ↦ (
                left,
                rw (two, less-eq before d xs right left hr hl, s),
                record {
                  inside = h;
                  which = omega arith;
                  first = λ c p q r.
                      ground (arith, s, children c i p r, irrefl before d o (get_or xs left d));
                },
              )
            ]
      ]

  sink_step :
      (n : ℕ) (xs : List A) (i j : ℕ)
      → n ≤ length xs
      → SinksAt n xs i
      → FirstChild n xs i j
      → before (get_or xs j d) (get_or xs i d) ≡ true
      → SinksAt n (swapped before d xs i j) j
  sink_step n xs i j size v s b =
      let hi : i < length xs = omega (arith, s.which, s.inside) in
      let hj : j < length xs = omega (arith, s.inside) in
      let at = get_or-swapped before d xs i j hi hj in
      let below = o.asym (get_or xs j d) (get_or xs i d) b in
      record {
        edges = λ c p q r.
            ground (arith, at c, at (parent c), v.edges c, v.past c, v.past j, s.first c, s.which);
        past = λ c p q r t. ground (arith, at c, at (parent j), v.edges c, s.which);
      }

  abbrev pub RepairedTo : ℕ → List A → Option (List A) → Type ℓ
  RepairedTo n xs r =
      (ys : List A) × (r ≡ some ys)
      × IsHeapTo before d n ys
      × Perm ys xs
      × ((c : ℕ) → n ≤ c → get_or ys c d ≡ get_or xs c d)

  pub down_repairs :
      (k : ℕ) (xs : List A) (i n : ℕ)
      → n < k + i
      → i < k + i
      → n ≤ length xs
      → SinksAt n xs i
      → RepairedTo n xs (down before plain k xs i n)
  unfolding down
  down_repairs zero xs i n f g size v = absurd (omega arith)
  down_repairs (suc k) xs i n f g size v = elim (Bool-cases (ltb (2 * i + 1) n)) [
    | inr leaf ↦ (xs, rw leaf, (λ c p q. ground (arith, v.edges c)), Perm.rfl, λ c p. refl)
    | inl inner ↦
        let (j, e, s) = child_first xs i n size (ground arith) in
        let hi : i < length xs = ground arith in
        let hj : j < length xs = omega (arith, s.inside) in
        elim (Bool-cases (before (get_or xs j d) (get_or xs i d))) [
          | inl b ↦
              let ys = swapped before d xs i j in
              let (zs, r, h, p, rest) =
                down_repairs k ys j n (omega (arith, s.which, s.inside))
                  (omega (arith, s.which, s.inside)) (omega (arith, length-swapped before d xs i j))
                  (sink_step n xs i j size v s b) in
              (
                zs,
                rw (inner, e, less-eq before d xs j i hj hi, b, swap-eq before d xs i j hi hj) r,
                h,
                Perm.trans p (swapped-perm before d xs i j hi hj),
                λ c q. ground (arith, rest c q, get_or-swapped before d xs i j hi hj c, s.inside),
              )
          | inr t ↦ (
            xs,
            rw (inner, e, less-eq before d xs j i hj hi, t),
            (λ c p q. ground (
              arith,
              v.edges c,
              s.first c,
              o.trans (get_or xs i d) (get_or xs j d) (get_or xs c d),
            )),
            Perm.rfl,
            λ c p. refl,
          )
        ]
  ]
