-- ===== src/Taskqueue/Heap.antt =====
-- The binary heap of Go's container/heap over a slice, as memory_backend.go drives it. `before` is
-- `Less` on two entries and `place` the write of an entry's `index` field; `none` is a panic for an
-- index out of range, or the end of the fuel.
pub mod Order
pub mod Rise
pub mod Sink
pub mod Correct
pub mod Views
use go_asynctasklib.Base.{
  ℕ, zero, suc, ◌+◌, ◌-◌, ◌*◌, ◌/◌, Bool, Option, none, some, List, [], ◌∷◌, ◌++◌, length,
  get_elem?, set, take, ltb, ◌==◌, if◌then◌else◌, ◌>>=◌,
}
use go_asynctasklib.Base.Int.{ℤ, pos, negsuc}

abbrev pub parent : ℕ → ℕ
parent c = (c - 1) / 2

module _ {ℓ} {A : Type ℓ} (before : A → A → Bool) (place : ℤ → A → A) where
  unfoldable pub less : List A → ℕ → ℕ → Option Bool
  less xs i j = do x ← get_elem? xs i; y ← get_elem? xs j; some (before x y)

  unfoldable pub swap : List A → ℕ → ℕ → Option (List A)
  swap xs i j = do
    x ← get_elem? xs i
    y ← get_elem? xs j
    some (set (set xs i (place (pos i) y)) j (place (pos j) x))

  unfoldable pub up : ℕ → List A → ℕ → Option (List A)
  up zero xs j = none
  up (suc k) xs j =
      let rise = swap xs (parent j) j >>= λ ys. up k ys (parent j) in
      let step = less xs j (parent j) >>= λ b. if b then rise else some xs in
      if parent j == j then some xs else step

  -- The child of `i` that the loop compares with `i`.
  unfoldable pub child : List A → ℕ → ℕ → Option ℕ
  child xs i n =
      let left = 2 * i + 1 in
      let right = left + 1 in
      let pick = less xs right left >>= λ b. some (if b then right else left) in
      if ltb right n then pick else some left

  unfoldable pub down : ℕ → List A → ℕ → ℕ → Option (List A)
  down zero xs i n = none
  down (suc k) xs i n =
      let step = child xs i n >>= λ j. less xs j i >>= λ b.
      let sink = swap xs i j >>= λ ys. down k ys j n in if b then sink else some xs in
      if ltb (2 * i + 1) n then step else some xs

  -- `h.Push`, then `up` from the new last index.
  unfoldable pub push : List A → A → Option (List A)
  push xs x = let ys = xs ++ place (pos (length xs)) x ∷ [] in up (length ys) ys (length ys - 1)

  -- The first entry goes to the end, `down` repairs the rest, and `h.Pop` cuts the end off.
  unfoldable pub pop : List A → Option (A × List A)
  pop xs =
      let n = length xs - 1 in
      swap xs 0 n >>= λ ys.
      down (suc n) ys 0 n >>= λ zs. get_elem? zs n >>= λ x. some (place (negsuc 0) x, take n zs)
