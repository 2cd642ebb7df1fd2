-- ===== src/Workerpool/Worker/Once.antt =====
-- worker.go: each job that a worker takes is reported once, in order.
use go_asynctasklib.Workerpool.Worker.{
  Worker, notify, start_loop, join, subscribed_with, choosing, claiming, subscribed,
}
use go_asynctasklib.Workerpool.Worker.Reports.{
  World, Step, Reach, Reports, reported, starts, job_of, start_of, reported_snoc, starts_snoc,
  idles, ends_choosing, claims, ends_claiming, takes, starts_job, handles, exits, settles,
  context_ends, leaves, left, left_exited, leave_times_out, start, later,
}
use go_asynctasklib.Base.{
  List, ℕ, ◌≡◌, ◌++◌, Option, subst, [], ap, ◌∙◌, arith, some, none, true, false, Bool-cases, inl,
  inr, refl,
}
use go_asynctasklib.Base.Int.{ℤ}
use mathlib.Core.List.{append-nil}
use go_asynctasklib.Workerpool.Claims.{Claims, subscribe}
use go_asynctasklib.Base.Errors.{Error}
use go_asynctasklib.Workerpool.Worker.Actions.{
  ended-Reports, at_loop, claim_taken-Reports, takes-Reports, finish_job-Reports, start_job-Reports,
  exit_job-Reports, settle_job-Reports, begin_leave-Reports, end_leave-Reports,
}

module _ {J : Type 0} where
  pub Step-Reports :
      (old : List J) (n : ℕ) {w u : World J} → Step w u → Reports w old n → Reports u old n
  Step-Reports old n (idles e) h = h
  Step-Reports old n {w} (ends_choosing e c) h =
      ended-Reports w old n (at_loop w old n choosing e h).0 h
  Step-Reports old n {w} (claims e) h = claim_taken-Reports w old n e h
  Step-Reports old n {w} (ends_claiming e c) h =
      ended-Reports w old n (at_loop w old n claiming e h).0 h
  Step-Reports old n {w} (takes t e) h = takes-Reports w old n t e h
  Step-Reports old n {w} (starts_job t e) h = start_job-Reports w old n t e h
  Step-Reports old n {w} (handles t r e) h = finish_job-Reports w old n t r e h
  Step-Reports old n {w} (exits t e) h = exit_job-Reports w old n t e h
  Step-Reports old n {w} (settles now e) h = settle_job-Reports w old n now e h
  Step-Reports old n (context_ends) h = record {
    each_once = h.each_once;
    busy_running = h.busy_running;
    flag = h.flag;
    one_start = h.one_start;
  }
  Step-Reports old n {w} (leaves jobs v c e q) h = begin_leave-Reports w old n jobs v c e q h
  Step-Reports old n {w} (left timeout e) h = end_leave-Reports w old n true timeout h
  Step-Reports old n {w} (left_exited t timeout e) h = end_leave-Reports w old n true timeout h
  Step-Reports old n {w} (leave_times_out timeout) h = end_leave-Reports w old n false timeout h

  Reach-Reports :
      (old : List J) (n : ℕ) {w u : World J} → Reach w u → Reports w old n → Reports u old n
  Reach-Reports old n start h = h
  Reach-Reports old n (later r s) h = Step-Reports old n s (Reach-Reports old n r h)

  -- A join that returns nil started the loop.
  subscribed_with_nil :
      (now : ℤ) (w : Worker J) (r : Claims × Option Error) (v : Worker J) (c : Option Claims)
      → subscribed_with now w r ≡ (v, c, none)
      → start_loop now w ≡ v
  unfolding subscribed_with
  subscribed_with_nil now w (d, some e) v c q = absurd (ground (arith, q))
  subscribed_with_nil now w (d, none) v c q = ap (λ x. x.0) q

  pub join_nil :
      (now : ℤ) (d : Claims) (w v : Worker J) (c : Option Claims)
      → join (some none) now (some d) w ≡ (v, c, none)
      → (w.running ≡ false) × (start_loop now w ≡ v)
  unfolding join
  join_nil now d w v c q = elim (Bool-cases w.running) [
    | inl e ↦ absurd (ground (arith, e, q))
    | inr e ↦ (e, subscribed_with_nil now w (subscribe (some w.id) d) v c (ground (arith, e, q)))
  ]

  pub start_loop-Reports :
      (now : ℤ) (w : Worker J)
      → w.running ≡ false
      → Reports
          (record { worker = start_loop now w; taken = []; claimed = 0 })
          (reported w.events)
          (starts w.events)
  unfolding start_loop notify job_of start_of
  start_loop-Reports now w e = record {
    each_once =
        ap (λ ts. ts ++ [])
          (reported_snoc w.events (subscribed w.id) ∙ append-nil (reported w.events));
    busy_running = e;
    flag = refl;
    one_start = starts_snoc w.events (subscribed w.id);
  }

  -- From a join that returned nil on, over any order of the actions of the loop and of leave, the
  -- jobs that JobOk and JobFailed have reported since, with the one that the loop has taken and not
  -- reported, are the jobs taken from the input, each once and in order; a job whose handler ends the
  -- goroutine by runtime.Goexit stays this one, without a report. IsRunning is true from the start of
  -- a handler until the store behind its report, and for ever behind such an end. WorkerStarted has
  -- been called once if a claim was taken since the join, and not at all before.
  pub join-Reports :
      (now : ℤ) (d : Claims) (w v : Worker J) (c : Option Claims) (u : World J)
      → join (some none) now (some d) w ≡ (v, c, none)
      → Reach (record { worker = v; taken = []; claimed = 0 }) u
      → Reports u (reported w.events) (starts w.events)
  join-Reports now d w v c u q r =
      let (idle, e) = join_nil now d w v c q in
      Reach-Reports (reported w.events) (starts w.events) r (
        subst
          (λ x.
            Reports (record { worker = x; taken = []; claimed = 0 }) (reported w.events)
              (starts w.events))
          e (start_loop-Reports now w idle))
