-- ===== src/Taskqueue/Heap/Order.antt =====
-- The heap order, for entries with no index field: `place` writes nothing.
use mathlib.Core.List.Perm
use go_asynctasklib.Base.{
  ℕ, zero, suc, ◌<◌, ◌≡◌, Bool, true, false, some, List, Perm, length, set, get_or, length-set,
  get_elem?-get_or, get_or-set, perm-set, ◌==◌, if◌then◌else◌, arith,
}
use go_asynctasklib.Base.Int.{ℤ}
use go_asynctasklib.Taskqueue.Heap.{parent, less, swap}

-- A strict order whose converse failure, `Le a b`, is a total preorder.
pub record IsOrder {ℓ} {A : Type ℓ} (before : A → A → Bool) : Type ℓ where
  pub asym : (a b : A) → before a b ≡ true → before b a ≡ false
  pub trans : (a b c : A) → before b a ≡ false → before c b ≡ false → before c a ≡ false

abbrev pub plain {ℓ} : {A : Type ℓ} → ℤ → A → A
plain i x = x

module _ {ℓ} {A : Type ℓ} (before : A → A → Bool) (d : A) where
  abbrev pub Le : A → A → Type 0
  Le a b = before b a ≡ false

  -- Every edge below index `n` is in order.
  abbrev pub IsHeapTo : ℕ → List A → Type 0
  IsHeapTo n xs = (c : ℕ) → 0 < c → c < n → Le (get_or xs (parent c) d) (get_or xs c d)

  abbrev pub IsHeap : List A → Type 0
  IsHeap xs = IsHeapTo (length xs) xs

  pub less-eq :
      (xs : List A) (i j : ℕ)
      → i < length xs
      → j < length xs
      → less before plain xs i j ≡ some (before (get_or xs i d) (get_or xs j d))
  unfolding less
  less-eq xs i j hi hj = rw (get_elem?-get_or xs i d hi, get_elem?-get_or xs j d hj)

  abbrev pub swapped : List A → ℕ → ℕ → List A
  swapped xs i j = set (set xs i (get_or xs j d)) j (get_or xs i d)

  pub length-swapped : (xs : List A) (i j : ℕ) → length (swapped xs i j) ≡ length xs
  length-swapped xs i j = simp length-set

  module _ (xs : List A) (i j : ℕ) (hi : i < length xs) (hj : j < length xs) where
    pub swap-eq : swap before plain xs i j ≡ some (swapped xs i j)
    unfolding swap
    swap-eq = rw (get_elem?-get_or xs i d hi, get_elem?-get_or xs j d hj)

    pub get_or-swapped :
        (c : ℕ)
        → get_or (swapped xs i j) c d
          ≡ (if j == c then get_or xs i d else if i == c then get_or xs j d else get_or xs c d)
    get_or-swapped c = rw (
      get_or-set (set xs i (get_or xs j d)) j c (get_or xs i d) d (rw length-set hj),
      get_or-set xs i c (get_or xs j d) d hi,
    )

    pub swapped-perm : Perm (swapped xs i j) xs
    swapped-perm =
        let ys = set xs i (get_or xs j d) in
        let same : get_or ys j d ≡ get_or xs j d =
          ground (arith, get_or-set xs i j (get_or xs j d) d) in
        let there = rw same at (perm-set ys j (get_or xs i d) d (rw length-set hj)) in
        Perm.cons_inv (Perm.trans there (perm-set xs i (get_or xs j d) d hi))

  root_below :
      (k : ℕ) (xs : List A) (n i : ℕ)
      → IsOrder before
      → IsHeapTo n xs
      → i < k
      → i < n
      → before (get_or xs 0 d) (get_or xs 0 d) ≡ false
      → Le (get_or xs 0 d) (get_or xs i d)
  root_below zero xs n i o h f p r = absurd (omega arith)
  root_below (suc k) xs n zero o h f p r = r
  root_below (suc k) xs n (suc i) o h f p r =
      o.trans (get_or xs 0 d) (get_or xs (parent (suc i)) d) (get_or xs (suc i) d)
        (root_below k xs n (parent (suc i)) o h (omega arith) (omega arith) r)
        (h (suc i) (omega arith) p)

  pub irrefl : (o : IsOrder before) (a : A) → before a a ≡ false
  irrefl o a = go (before a a) (o.asym a a)
    where
      go : (b : Bool) → (b ≡ true → b ≡ false) → b ≡ false
      go true f = f (ground arith)
      go false f = ground arith

  -- No entry of a heap comes before its root.
  pub root_least :
      (xs : List A) (n i : ℕ)
      → IsOrder before
      → IsHeapTo n xs
      → i < n
      → Le (get_or xs 0 d) (get_or xs i d)
  root_least xs n i o h p = root_below (suc i) xs n i o h (omega arith) p (irrefl o _)
