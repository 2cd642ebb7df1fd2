-- ===== src/Taskqueue/Heap/Correct.antt =====
-- Push and pop of the heap, for entries with no index field.
use mathlib.Core.List.{mem-cons, not-mem-nil, perm_middle, append-nil}
use mathlib.Core.List.Perm
use mathlib.Core.Logic.Or
use go_asynctasklib.Base.{
  ℕ, suc, ◌-◌, ◌<◌, ◌≡◌, sym, ap, subst, ◌∙◌, Bool, false, Option, some, List, [], ◌∷◌, ◌++◌, Perm,
  Mem, length, take, get_or, length-append, length-take, get_or-append, get_or-take,
  take-append_last, perm-length, get_elem?-get_or, arith,
}
use go_asynctasklib.Taskqueue.Heap.{parent, down, push, pop}
use go_asynctasklib.Taskqueue.Heap.Order.{
  IsOrder, plain, IsHeap, IsHeapTo, swapped, length-swapped, swap-eq, get_or-swapped, swapped-perm,
  root_least,
}
use go_asynctasklib.Taskqueue.Heap.Rise.{RisesAt, up_repairs}
use go_asynctasklib.Taskqueue.Heap.Sink.{SinksAt, down_repairs}

module _ {ℓ} {A : Type ℓ} (before : A → A → Bool) (d : A) (o : IsOrder before) where
  append_perm : (xs : List A) (x : A) → Perm (xs ++ x ∷ []) (x ∷ xs)
  append_perm xs x = rw (append-nil xs) at (perm_middle {a = x} xs [])

  append-RisesAt :
      (xs : List A) (x : A) → IsHeap before d xs → RisesAt before d o (xs ++ x ∷ []) (length xs)
  append-RisesAt xs x h =
      let size = length-append xs (x ∷ []) in
      record {
        inside = omega arith;
        edges = λ c p q r. ground (
          arith,
          size,
          h c,
          get_or-append xs (x ∷ []) c d,
          get_or-append xs (x ∷ []) (parent c) d,
        );
        past = λ c p q r s. absurd (omega arith);
      }

  -- Push keeps the heap order and adds exactly the entry.
  pub push_adds :
      (xs : List A) (x : A)
      → IsHeap before d xs
      → (ys : List A) × (push before plain xs x ≡ some ys) × IsHeap before d ys × Perm ys (x ∷ xs)
  unfolding push
  push_adds xs x h =
      let size = length-append xs (x ∷ []) in
      let last : length xs ≡ length (xs ++ x ∷ []) - 1 = omega arith in
      let (ys, e, g, p) =
        up_repairs before d o (length (xs ++ x ∷ [])) (xs ++ x ∷ []) (length (xs ++ x ∷ []) - 1)
          (omega arith) (subst (RisesAt before d o (xs ++ x ∷ [])) last (append-RisesAt xs x h)) in
      (ys, e, g, Perm.trans p (append_perm xs x))

  least_of_root :
      (xs : List A) (a : A)
      → ((i : ℕ) → i < length xs → before (get_or xs i d) a ≡ false)
      → (y : A) → Mem y xs
      → before y a ≡ false
  least_of_root [] a h y m = absurd (not-mem-nil m)
  least_of_root (x ∷ xs) a h y m =
      Or.elim (hlevel) (mem-cons.0 m) (λ e. rw e (h 0 (omega arith)))
        (least_of_root xs a (λ i p. h (suc i) (omega arith)) y)

  -- What pop makes of a heap: its root, and a heap of the other entries.
  abbrev pub Popped : List A → Option (A × List A) → Type ℓ
  Popped xs r =
      (x : A) × (ys : List A) × (r ≡ some (x, ys))
      × IsHeap before d ys
      × Perm (x ∷ ys) xs
      × ((y : A) → Mem y xs → before y x ≡ false)

  module _ (xs : List A) (n : ℕ) (size : length xs ≡ suc n) (h : IsHeap before d xs) where
    first_last : List A
    first_last = swapped before d xs 0 n

    first_last-SinksAt : SinksAt before d o n first_last 0
    unfolding first_last
    first_last-SinksAt =
        let at = get_or-swapped before d xs 0 n (omega arith) (omega arith) in
        record {
          edges = λ c p q r. ground (arith, at c, at (parent c), h c);
          past = λ c p q r s. absurd (omega arith);
        }

    cut-IsHeap :
        (zs : List A)
        → IsHeapTo before d n zs
        → length (take n zs) ≡ n
        → IsHeap before d (take n zs)
    cut-IsHeap zs g e = λ c p q.
        let inside : c < n = omega arith in
        rw (get_or-take n zs c d inside, get_or-take n zs (parent c) d (omega arith)) (g c p inside)

    pop-eq :
        (zs : List A)
        → down before plain (suc n) first_last 0 n ≡ some zs
        → get_or zs n d ≡ get_or xs 0 d
        → length zs ≡ suc n
        → pop before plain xs ≡ some (get_or xs 0 d, take n zs)
    unfolding pop first_last
    pop-eq zs e end wide =
        let last : length xs - 1 ≡ n = omega arith in
        rw (
          last,
          swap-eq before d xs 0 n (omega arith) (omega arith),
          e,
          get_elem?-get_or zs n d (omega arith),
          end,
        )

    -- Pop returns an entry that none comes before, and keeps the others in a heap.
    pub pop_takes : Popped xs (pop before plain xs)
    unfolding first_last
    pop_takes =
        let long : length first_last ≡ suc n = length-swapped before d xs 0 n ∙ size in
        let (zs, e, g, p, rest) =
          down_repairs before d o (suc n) first_last 0 n (omega arith) (omega arith) (omega arith)
            first_last-SinksAt in
        let wide : length zs ≡ suc n = perm-length p ∙ long in
        let end : get_or zs n d ≡ get_or xs 0 d =
          rest n (omega arith)
          ∙ ground (arith, get_or-swapped before d xs 0 n (omega arith) (omega arith) n) in
        let whole : take n zs ++ get_or xs 0 d ∷ [] ≡ zs =
          ap (λ y. take n zs ++ y ∷ []) (sym end) ∙ take-append_last n zs d wide in
        let all = Perm.trans p (swapped-perm before d xs 0 n (omega arith) (omega arith)) in
        (
          get_or xs 0 d,
          take n zs,
          pop-eq zs e end wide,
          cut-IsHeap zs g (length-take n zs (omega arith)),
          Perm.trans (Perm.symm (append_perm (take n zs) (get_or xs 0 d)))
              (subst (λ ws. Perm ws xs) (sym whole) all),
          least_of_root xs (get_or xs 0 d) (λ i q. root_least before d xs (length xs) i o h q),
        )
