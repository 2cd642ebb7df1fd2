-- ===== src/Workerpool/Start/Joining.antt =====
-- pool.go: what createWorkers and joinInitial leave.
use go_asynctasklib.Workerpool.Start.{
  Initial, create_workers, add_worker, put_worker, join_next, join_initial,
}
use go_asynctasklib.Workerpool.Worker.{Worker, new_worker, join, start_loop, notify, unstarted}
use go_asynctasklib.Workerpool.Worker.Once.{join_nil}
use go_asynctasklib.Workerpool.Claims.{Claims}
use go_asynctasklib.Base.Errors.{Result, ok, err, Error}
use go_asynctasklib.Base.Table
use go_asynctasklib.Base.{
  ℕ, ◌≡◌, List, length, ◌∷◌, sym, Option, ◌≤◌, suc, [], arith, ap, ◌+◌, none, ◌∙◌, zero, refl, some,
  subst, false,
}
use go_asynctasklib.Base.Int.{ℤ, pos}
use go_asynctasklib.Workerpool.Ticks.{Present, present}

-- No ID from `i` on is in the set.
abbrev pub Below : ℕ → List (ℕ × Present) → Type 0
Below i j = (x : ℕ) → i ≤ x → Table.lookup x j ≡ none

pub none_joined : (i : ℕ) → Below i []
unfolding Table.lookup
none_joined i x l = refl

Below-insert :
    (i : ℕ) (j : List (ℕ × Present)) → Below i j → Below (suc i) (Table.insert i present j)
Below-insert i j h x l = Table.lookup-insert i x present j ∙ ground (arith, h x (omega arith))

inserted_grows :
    (i : ℕ) (j : List (ℕ × Present))
    → Below i j
    → length (Table.insert i present j) ≡ suc (length j)
inserted_grows i j h = Table.length-insert i present j ∙ rw (h i (omega arith)) refl

module _ {J : Type 0} where
  -- The IDs of the workers, from `i` on.
  abbrev pub Numbered : ℕ → List (Worker J) → Type 0
  Numbered i [] = Unit
  Numbered i (w ∷ ws) = (w.id ≡ i) × Numbered (suc i) ws

  abbrev fresh : ℤ → ℕ → Worker J
  fresh now i = record {
    id = i;
    idle_timeout = pos 100000000;
    last_active_at = now;
    running = false;
    started_notified = false;
    joined = false;
    canceled = false;
    loop = unstarted;
    events = [];
  }

  pub create_workers-Numbered :
      (now : ℤ) (i n : ℕ)
      → (ws : List (Worker J)) × (create_workers now i n ≡ ok ws) × (length ws ≡ n) × Numbered i ws
  unfolding create_workers add_worker new_worker
  create_workers-Numbered now i zero = ([], refl, refl, tt)
  create_workers-Numbered now i (suc n) =
      let (ws, e, l, h) = create_workers-Numbered now (suc i) n in
      (fresh now i ∷ ws, ap (add_worker (ok (fresh now i))) e, ap suc l, (refl, h))

  put_worker_ok :
      (w : Worker J) (x : Result (Initial J)) (r : Initial J)
      → put_worker w x ≡ ok r
      → (q : Initial J) × (x ≡ ok q) × (record q { workers = w ∷ q.workers } ≡ r)
  unfolding put_worker
  put_worker_ok w (err e) r h = absurd cc
  put_worker_ok w (ok q) r h = (q, refl, ground (arith, h))

  -- A joinInitial that went on behind the join of a worker.
  abbrev Joined :
      (Claims → List (ℕ × Present) → Result (Initial J))
      → List (ℕ × Present)
      → Worker J × Option Claims × Option Error
      → Initial J
      → Type 0
  Joined rest j x r =
      (v : Worker J) × (c : Claims) × (q : Initial J) × (x ≡ (v, some c, none))
      × (rest c (Table.insert v.id present j) ≡ ok q)
      × (record q { workers = v ∷ q.workers } ≡ r)

  join_next-Joined :
      (rest : Claims → List (ℕ × Present) → Result (Initial J)) (j : List (ℕ × Present))
      (x : Worker J × Option Claims × Option Error) (r : Initial J)
      → join_next rest j x ≡ ok r
      → Joined rest j x r
  unfolding join_next
  join_next-Joined rest j (v, c, some e) r h = absurd cc
  join_next-Joined rest j (v, none, none) r h = absurd cc
  join_next-Joined rest j (v, some c, none) r h =
      let (q, e, f) = put_worker_ok v _ r h in (v, c, q, refl, e, f)

  same_id : (now : ℤ) (w v : Worker J) → start_loop now w ≡ v → v.id ≡ w.id
  unfolding start_loop notify
  same_id now w v e = sym (ap (λ x. x.id) e)

  join_same_id :
      (o : Option Error) (now : ℤ) (c k : Claims) (w v : Worker J)
      → join (some o) now (some c) w ≡ (v, some k, none)
      → v.id ≡ w.id
  unfolding join
  join_same_id (some e) now c k w v q = absurd (ground (arith, q))
  join_same_id none now c k w v q = same_id now w v (join_nil now c w v (some k) q).1

  abbrev pub Grown : ℕ → List (Worker J) → List (ℕ × Present) → Initial J → Type 0
  Grown n ws j r =
      Table.Distinct r.joined_ids
      × (length r.joined_ids ≡ length j + n)
      × (length r.workers ≡ length ws)

  pub join_initial-Grown :
      (ctx : ℕ → Option Error) (now : ℤ) (n : ℕ) (ws : List (Worker J)) (c : Claims)
      (j : List (ℕ × Present)) (i : ℕ) (r : Initial J)
      → join_initial ctx now n ws c j ≡ ok r
      → n ≤ length ws
      → Numbered i ws
      → Below i j
      → Table.Distinct j
      → Grown n ws j r
  unfolding join_initial
  join_initial-Grown ctx now zero ws c j i r e l h b d =
      let same : record { workers = ws; claims = c; joined_ids = j } ≡ r = ground (arith, e) in
      subst (Grown 0 ws j) same (d, omega arith, refl)
  join_initial-Grown ctx now (suc n) [] c j i r e l h b d = absurd (omega arith)
  join_initial-Grown ctx now (suc n) (w ∷ ws) c j i r e l (named, h) b d =
      let (v, k, q, f, g, s) =
        join_next-Joined (join_initial ctx now n ws) j (join (some (ctx w.id)) now (some c) w) r
          e in
      let at : i ≡ v.id = sym (join_same_id (ctx w.id) now c k w v f ∙ named) in
      let (distinct, joined, kept) =
        join_initial-Grown ctx now n ws k (Table.insert v.id present j) (suc i) q g (omega arith) h
          (subst (λ x. Below (suc i) (Table.insert x present j)) at (Below-insert i j b))
          (Table.insert-Distinct v.id present j d) in
      let added : length (Table.insert v.id present j) ≡ suc (length j) =
        subst (λ x. length (Table.insert x present j) ≡ suc (length j)) at (inserted_grows i j b) in
      subst (Grown (suc n) (w ∷ ws) j) s (distinct, omega (arith, joined, added), ap suc kept)
