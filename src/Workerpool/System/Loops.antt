-- ===== src/Workerpool/System/Loops.antt =====
-- worker.go: where an action leaves the loop of a worker.
use go_asynctasklib.Workerpool.System.{
  Own, ends, starts_job, handles, exits, settles, left_exited, context_ends, left, leave_times_out,
}
use go_asynctasklib.Workerpool.Claims as Claims
use go_asynctasklib.Workerpool.Claims.{Outcome, delivered, failed}
use go_asynctasklib.Workerpool.Worker.{
  start_job, exit_job, settle_job, Loop, subscribe_failed, Worker, notify, over, claiming,
  unsubscribed_with, cancel_joined, begin_leave, end_loop, claim_taken, finish_job, end_leave,
}
use go_asynctasklib.Base.{
  ℕ, ◌∙◌, none, some, ◌≡◌, inl, inr, ap, ◌⊎◌, arith, refl, Option, Bool-cases, if_both,
}
use go_asynctasklib.Base.Errors.{Error}

module _ {J : Type 0} where
  -- How many claims of a loop may be on their way.
  abbrev pub waits : Loop J → ℕ
  waits claiming = 1
  waits over = 1
  waits l = 0

  waits_at : (l k : Loop J) → l ≡ k → waits k ≡ 0 → waits l ≡ 0
  waits_at l k e z = ap waits e ∙ z

  pub Own-loop :
      (w v : Worker J)
      → Own w v
      → ((v.loop ≡ w.loop) ⊎ (v.loop ≡ over)) ⊎ ((waits w.loop ≡ 0) × (waits v.loop ≡ 0))
  unfolding end_loop start_job finish_job exit_job settle_job notify end_leave
  Own-loop w v (ends e c) = inl (inr refl)
  Own-loop w v (starts_job t e) = inr (waits_at _ _ e refl, refl)
  Own-loop w v (handles t h e) = inr (waits_at _ _ e refl, refl)
  Own-loop w v (exits t e) = inr (waits_at _ _ e refl, refl)
  Own-loop w v (settles now e) = inr (waits_at _ _ e refl, refl)
  Own-loop w v context_ends = inl (inl refl)
  Own-loop w v (left timeout e) = inl (inl refl)
  Own-loop w v (left_exited t timeout e) = inl (inl refl)
  Own-loop w v (leave_times_out timeout) = inl (inl refl)

  unsubscribed_with-loop :
      (w v : Worker J) (r : Claims.Claims × Option Error) (c : Option Claims.Claims)
      (e : Option Error)
      → unsubscribed_with w r ≡ some (v, c, e)
      → v.loop ≡ w.loop
  unfolding unsubscribed_with cancel_joined notify
  unsubscribed_with-loop w v (d, some x) c e q = ground (arith, q)
  unsubscribed_with-loop w v (d, none) c e q = elim (Bool-cases w.joined) [
    | inl j ↦ ground (arith, j, q)
    | inr j ↦ absurd (ground (arith, j, q))
  ]

  pub claim_taken-loop : (w : Worker J) → (claim_taken w).loop ≡ claiming
  unfolding claim_taken notify
  claim_taken-loop w =
      if_both (λ (v : Worker J). v.loop ≡ claiming) w.started_notified _ _ (λ q. refl) (λ q. refl)

  pub refused-loop :
      (w v : Worker J)
      → (v ≡ w) ⊎ ((x : Error) × (v ≡ notify (subscribe_failed x w.id) w))
      → v.loop ≡ w.loop
  unfolding notify
  refused-loop w v (inl e) = ap (λ (x : Worker J). x.loop) e
  refused-loop w v (inr (x, e)) = ap (λ (x : Worker J). x.loop) e

  pub begin_leave-loop :
      (w v : Worker J) (d : Claims.Claims) (c : Option Claims.Claims) (e : Option Error)
      → begin_leave (some d) w ≡ some (v, c, e)
      → v.loop ≡ w.loop
  unfolding begin_leave
  begin_leave-loop w v d c e q = unsubscribed_with-loop w v _ c e q
