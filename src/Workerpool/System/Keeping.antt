-- ===== src/Workerpool/System/Keeping.antt =====
-- worker.go: what a worker reports of its jobs, over each of its actions and a new join.
use go_asynctasklib.Workerpool.System.{
  Member, Own, given, put, delivered_to, ends, starts_job, handles, exits, settles, left_exited,
  context_ends, left, leave_times_out,
}
use go_asynctasklib.Workerpool.Claims as Claims
use go_asynctasklib.Workerpool.Claims.{Outcome, delivered, failed, subscribe}
use go_asynctasklib.Workerpool.Worker.{
  subscribe_failed, subscribed_with, join, Worker, start_loop, notify, subscribed, unstarted, over,
  join,
}
use go_asynctasklib.Workerpool.Worker.Reports.{
  silent, World, Reports, reported, starts, reported_snoc, starts_snoc, job_of, start_of, in_hand,
  is_busy,
}
use go_asynctasklib.Workerpool.Worker.Reports as Reports
use go_asynctasklib.Workerpool.Worker.Once.{Step-Reports, join_nil}
use go_asynctasklib.Base.{
  ◌∷◌, [], false, none, some, ℕ, List, ◌≡◌, ◌++◌, inl, inr, ap, ◌∙◌, sym, ◌⊎◌, ◌≢◌, Bool-cases,
  subst, ◌==◌, if◌then◌else◌, ==_iff, arith, Option, refl,
}
use mathlib.Core.List.{append-nil, append_assoc}
use go_asynctasklib.Base.Int.{ℤ}
use go_asynctasklib.Base.Errors.{Error}

module _ {J : Type 0} where
  pub given_snoc :
      (i : ℕ) (hs : List (J × Outcome)) (h : J × Outcome)
      → delivered_to i (hs ++ (h ∷ [])) ≡ delivered_to i hs ++ given i h
  given_snoc i [] h = append-nil (given i h)
  given_snoc i (x ∷ hs) h =
      ap (λ ts. given i x ++ ts) (given_snoc i hs h)
      ∙ sym (append_assoc (given i x) (delivered_to i hs) (given i h))

  pub given-other :
      (j w : ℕ) (t : J) (hs : List (J × Outcome))
      → w ≢ j
      → delivered_to j (hs ++ ((t, delivered w) ∷ [])) ≡ delivered_to j hs
  given-other j w t hs n =
      given_snoc j hs (t, delivered w)
      ∙ ap (λ ts. delivered_to j hs ++ ts) (ground arith)
      ∙ append-nil (delivered_to j hs)

  pub given-own :
      (w : ℕ) (t : J) (hs : List (J × Outcome))
      → delivered_to w (hs ++ ((t, delivered w) ∷ [])) ≡ delivered_to w hs ++ (t ∷ [])
  given-own w t hs =
      given_snoc w hs (t, delivered w) ∙ ap (λ ts. delivered_to w hs ++ ts) (ground arith)

  pub given-failed :
      (j : ℕ) (t : J) (e : Error) (hs : List (J × Outcome))
      → delivered_to j (hs ++ ((t, failed e) ∷ [])) ≡ delivered_to j hs
  given-failed j t e hs = given_snoc j hs (t, failed e) ∙ append-nil (delivered_to j hs)

  -- Of `n` calls of WorkerStarted before the last join, and `k` claims since.
  abbrev pub Kept : Worker J → List J → Type 0
  Kept w ts = (n : ℕ) × (k : ℕ) × Reports (record { worker = w; taken = ts; claimed = k }) [] n

  pub moved :
      (w v : Worker J) (ts us : List J) (f : ℕ → ℕ)
      → ((k : ℕ)
          → Reports.Step
              (record { worker = w; taken = ts; claimed = k })
              (record { worker = v; taken = us; claimed = f k }))
      → Kept w ts
      → Kept v us
  moved w v ts us f s (n, k, h) = (n, f k, Step-Reports [] n (s k) h)

  -- An action that sends no claim.
  pub acted :
      (w v : Worker J) (ts us : List J)
      → ((k : ℕ)
          → Reports.Step
              (record { worker = w; taken = ts; claimed = k })
              (record { worker = v; taken = us; claimed = k }))
      → Kept w ts
      → Kept v us
  acted w v ts us s h = moved w v ts us (λ k. k) s h

  pub Own-Kept : (w v : Worker J) (ts : List J) → Own w v → Kept w ts → Kept v ts
  Own-Kept w v ts (ends (inl e) c) h = acted w v ts ts (λ k. Reports.ends_choosing e c) h
  Own-Kept w v ts (ends (inr e) c) h = acted w v ts ts (λ k. Reports.ends_claiming e c) h
  Own-Kept w v ts (starts_job t e) h = acted w v ts ts (λ k. Reports.starts_job t e) h
  Own-Kept w v ts (handles t r e) h = acted w v ts ts (λ k. Reports.handles t r e) h
  Own-Kept w v ts (exits t e) h = acted w v ts ts (λ k. Reports.exits t e) h
  Own-Kept w v ts (settles now e) h = acted w v ts ts (λ k. Reports.settles now e) h
  Own-Kept w v ts (context_ends) h = acted w v ts ts (λ k. Reports.context_ends) h
  Own-Kept w v ts (left timeout e) h = acted w v ts ts (λ k. Reports.left timeout e) h
  Own-Kept w v ts (left_exited t timeout e) h =
      acted w v ts ts (λ k. Reports.left_exited t timeout e) h
  Own-Kept w v ts (leave_times_out timeout) h =
      acted w v ts ts (λ k. Reports.leave_times_out timeout) h

  -- A loop that has no job in the handler starts anew with all its jobs reported.
  restarted :
      (now : ℤ) (w : Worker J) (ts : List J)
      → in_hand w.loop ≡ []
      → w.running ≡ false
      → Kept w ts
      → Kept (start_loop now w) ts
  unfolding start_loop notify job_of start_of
  restarted now w ts e r (n, k, h) = (
    starts w.events,
    0,
    record {
      each_once =
          append-nil (reported (w.events ++ (subscribed w.id ∷ [])))
          ∙ reported_snoc w.events (subscribed w.id)
          ∙ ap (λ us. reported w.events ++ us) (sym e)
          ∙ h.each_once;
      busy_running = r;
      flag = refl;
      one_start = starts_snoc w.events (subscribed w.id);
    },
  )

  idle : (w : Worker J) → (w.loop ≡ unstarted) ⊎ (w.loop ≡ over) → in_hand w.loop ≡ []
  idle w (inl e) = ap in_hand e
  idle w (inr e) = ap in_hand e

  pub joined-Kept :
      (now : ℤ) (c d : Claims.Claims) (w v : Worker J) (ts : List J)
      → (w.loop ≡ unstarted) ⊎ (w.loop ≡ over)
      → join (some none) now (some c) w ≡ (v, some d, none)
      → Kept w ts
      → Kept v ts
  joined-Kept now c d w v ts l q k =
      let (r, e) = join_nil now c w v (some d) q in
      subst (λ x. Kept x ts) e (restarted now w ts (idle w l) r k)

  subscribed_with_error :
      (now : ℤ) (w : Worker J) (r : Claims.Claims × Option Error) (v : Worker J)
      (d : Option Claims.Claims) (e : Error)
      → subscribed_with now w r ≡ (v, d, some e)
      → (x : Error) × (v ≡ notify (subscribe_failed x w.id) w)
  unfolding subscribed_with
  subscribed_with_error now w (c, some x) v d e q = (x, ground (arith, q))
  subscribed_with_error now w (c, none) v d e q = absurd (ground (arith, q))

  -- A join with an error tells the observer at most.
  pub join_error :
      (ctx : Option (Option Error)) (now : ℤ) (c : Claims.Claims) (w v : Worker J)
      (d : Option Claims.Claims) (e : Error)
      → join ctx now (some c) w ≡ (v, d, some e)
      → (v ≡ w) ⊎ ((x : Error) × (v ≡ notify (subscribe_failed x w.id) w))
  unfolding join
  join_error none now c w v d e q = inl (ground (arith, q))
  join_error (some (some x)) now c w v d e q = inl (ground (arith, q))
  join_error (some none) now c w v d e q = elim (Bool-cases w.running) [
    | inl r ↦ inl (ground (arith, r, q))
    | inr r ↦
        inr (subscribed_with_error now w (subscribe (some w.id) c) v d e (ground (arith, r, q)))
  ]

  pub refused-Kept :
      (w v : Worker J) (ts : List J)
      → (v ≡ w) ⊎ ((x : Error) × (v ≡ notify (subscribe_failed x w.id) w))
      → Kept w ts
      → Kept v ts
  unfolding job_of start_of
  refused-Kept w v ts (inl e) k = subst (λ x. Kept x ts) (sym e) k
  refused-Kept w v ts (inr (x, e)) (n, k, h) =
      subst (λ y. Kept y ts) (sym e)
        (
          n,
          k,
          silent (record { worker = w; taken = ts; claimed = k }) (subscribe_failed x w.id) [] n
              refl refl h,
        )

  -- What holds of each worker, with one of them changed.
  pub put_each :
      (P : ℕ → Member J → Type 0) (i : ℕ) (m : Member J) (f : ℕ → Member J)
      → P i m
      → ((j : ℕ) → i ≢ j → P j (f j))
      → (j : ℕ) → P j (put i m f j)
  unfolding put
  put_each P i m f k ks j = elim (Bool-cases (i == j)) [
    | inl e ↦
        subst (P j) (sym (ap (λ b. if b then m else f j) e))
          (subst (λ x. P x m) ((==_iff i j).0 e) k)
    | inr e ↦
        subst (P j) (sym (ap (λ b. if b then m else f j) e)) (ks j (λ p. ground (arith, p, e)))
  ]
