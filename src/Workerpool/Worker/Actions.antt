-- ===== src/Workerpool/Worker/Actions.antt =====
-- worker.go: what each action of the loop and of leave reports.
use go_asynctasklib.Workerpool.Worker.{
  Worker, Loop, Handled, notify, end_loop, claim_taken, take_job, finish_job, report, process_job,
  start_job, settle_job, exit_job, begin_leave, end_leave, unsubscribed_with, cancel_joined,
  choosing, claiming, busy, fetched, settling, worker_started, unsubscribe_failed, unsubscribed,
  worker_stopped, leave_timeout,
}
use go_asynctasklib.Workerpool.Worker.Reports.{
  World, Reports, reported, starts, job_of, start_of, in_hand, is_busy, reported_snoc, starts_snoc,
  report-job_of, report-start_of, silent,
}
use go_asynctasklib.Base.{
  List, ℕ, suc, ◌≡◌, ◌++◌, Option, subst, [], if_both, ◌∷◌, refl, ap, ◌∙◌, arith, sym, some, none,
  true, Bool, false, Bool-cases, inl, inr,
}
use go_asynctasklib.Base.Int.{ℤ}
use mathlib.Core.List.{append-nil, append_assoc}
use go_asynctasklib.Workerpool.Claims.{Claims}
use go_asynctasklib.Base.Errors.{Error}

module _ {J : Type 0} where
  -- The two fields that depend on the loop, where it stands at `l`.
  pub at_loop :
      (w : World J) (old : List J) (n : ℕ) (l : Loop J)
      → w.worker.loop ≡ l
      → Reports w old n
      → (reported w.worker.events ++ in_hand l ≡ old ++ w.taken) × (w.worker.running ≡ is_busy l)
  at_loop w old n l e h = (
    subst (λ x. reported w.worker.events ++ in_hand x ≡ old ++ w.taken) e h.each_once,
    subst (λ x. w.worker.running ≡ is_busy x) e h.busy_running,
  )

  pub ended-Reports :
      (w : World J) (old : List J) (n : ℕ)
      → reported w.worker.events ++ [] ≡ old ++ w.taken
      → Reports w old n
      → Reports (record w { worker = end_loop w.worker }) old n
  unfolding end_loop
  ended-Reports w old n e h = record {
    each_once = e;
    busy_running = refl;
    flag = h.flag;
    one_start = h.one_start;
  }

  pub claim_taken-Reports :
      (w : World J) (old : List J) (n : ℕ)
      → w.worker.loop ≡ choosing
      → Reports w old n
      → Reports (record w { worker = claim_taken w.worker; claimed = suc w.claimed }) old n
  unfolding claim_taken notify job_of reported starts start_of
  claim_taken-Reports w old n e h =
      let (once, idle) = at_loop w old n choosing e h in
      if_both (λ (v : Worker J). Reports (record w { worker = v; claimed = suc w.claimed }) old n)
        w.worker.started_notified _ _
        (λ q. record {
          each_once = once;
          busy_running = idle;
          flag = ground (arith, q);
          one_start = ground (arith, q, h.flag, h.one_start);
        })
        (λ q. record {
          each_once =
              ap (λ ts. ts ++ [])
                (reported_snoc w.worker.events (worker_started w.worker.id)
                  ∙ append-nil (reported w.worker.events))
              ∙ once;
          busy_running = idle;
          flag = ground arith;
          one_start =
              starts_snoc w.worker.events (worker_started w.worker.id)
              ∙ ground (arith, q, h.flag, h.one_start);
        })

  pub finish_job-Reports :
      (w : World J) (old : List J) (n : ℕ) (t : J) (r : Handled)
      → w.worker.loop ≡ busy t
      → Reports w old n
      → Reports (record w { worker = finish_job t r w.worker }) old n
  unfolding finish_job notify
  finish_job-Reports w old n t r e h =
      let (once, run) = at_loop w old n (busy t) e h in
      let said = report t (process_job r) in
      record {
        each_once =
            append-nil (reported (w.worker.events ++ (said ∷ [])))
            ∙ reported_snoc w.worker.events said
            ∙ ap (λ ts. reported w.worker.events ++ ts) (report-job_of t (process_job r))
            ∙ once;
        busy_running = run;
        flag = h.flag;
        one_start =
            starts_snoc w.worker.events said
            ∙ omega (arith, report-start_of t (process_job r), h.one_start);
      }

  pub takes-Reports :
      (w : World J) (old : List J) (n : ℕ) (t : J)
      → w.worker.loop ≡ claiming
      → Reports w old n
      → Reports (record w { worker = take_job t w.worker; taken = w.taken ++ (t ∷ []) }) old n
  unfolding take_job
  takes-Reports w old n t e h =
      let (once, idle) = at_loop w old n claiming e h in
      record {
        each_once =
            ap (λ ts. ts ++ (t ∷ [])) (sym (append-nil (reported w.worker.events)) ∙ once)
            ∙ append_assoc old w.taken (t ∷ []);
        busy_running = idle;
        flag = h.flag;
        one_start = h.one_start;
      }

  pub start_job-Reports :
      (w : World J) (old : List J) (n : ℕ) (t : J)
      → w.worker.loop ≡ fetched t
      → Reports w old n
      → Reports (record w { worker = start_job t w.worker }) old n
  unfolding start_job
  start_job-Reports w old n t e h = record {
    each_once = (at_loop w old n (fetched t) e h).0;
    busy_running = refl;
    flag = h.flag;
    one_start = h.one_start;
  }

  pub exit_job-Reports :
      (w : World J) (old : List J) (n : ℕ) (t : J)
      → w.worker.loop ≡ busy t
      → Reports w old n
      → Reports (record w { worker = exit_job t w.worker }) old n
  unfolding exit_job
  exit_job-Reports w old n t e h =
      let (once, run) = at_loop w old n (busy t) e h in
      record { each_once = once; busy_running = run; flag = h.flag; one_start = h.one_start }

  pub settle_job-Reports :
      (w : World J) (old : List J) (n : ℕ) (now : ℤ)
      → w.worker.loop ≡ settling
      → Reports w old n
      → Reports (record w { worker = settle_job now w.worker }) old n
  unfolding settle_job
  settle_job-Reports w old n now e h = record {
    each_once = (at_loop w old n settling e h).0;
    busy_running = refl;
    flag = h.flag;
    one_start = h.one_start;
  }

  -- The worker that leave has canceled, with silent events only.
  become :
      (w : World J) (old : List J) (n : ℕ) (v u : Worker J)
      → v ≡ u
      → Reports (record w { worker = v }) old n
      → Reports (record w { worker = u }) old n
  become w old n v u e h = subst (λ x. Reports (record w { worker = x }) old n) e h

  canceled-Reports :
      (w : World J) (old : List J) (n : ℕ)
      → Reports w old n
      → Reports (record w { worker = record w.worker { canceled = true } }) old n
  canceled-Reports w old n h = record {
    each_once = h.each_once;
    busy_running = h.busy_running;
    flag = h.flag;
    one_start = h.one_start;
  }

  unsubscribed_with-Reports :
      (w : World J) (old : List J) (n : ℕ) (r : Claims × Option Error) (v : Worker J)
      (c : Option Claims) (e : Option Error)
      → unsubscribed_with w.worker r ≡ some (v, c, e)
      → Reports w old n
      → Reports (record w { worker = v }) old n
  unfolding unsubscribed_with cancel_joined notify job_of start_of
  unsubscribed_with-Reports w old n (d, some x) v c e q h =
      become w old n (notify (unsubscribe_failed x w.worker.id) w.worker) v (ground (arith, q))
        (silent w (unsubscribe_failed x w.worker.id) old n refl refl h)
  unsubscribed_with-Reports w old n (d, none) v c e q h =
      let gone = notify (unsubscribed w.worker.id) w.worker in
      elim (Bool-cases w.worker.joined) [
        | inl j ↦
            become w old n (record gone { canceled = true }) v (ground (arith, j, q))
              (canceled-Reports (record w { worker = gone }) old n
                (silent w (unsubscribed w.worker.id) old n refl refl h))
        | inr j ↦ absurd (ground (arith, j, q))
      ]

  pub begin_leave-Reports :
      (w : World J) (old : List J) (n : ℕ) (jobs : Option Claims) (v : Worker J) (c : Option Claims)
      (e : Option Error)
      → begin_leave jobs w.worker ≡ some (v, c, e)
      → Reports w old n
      → Reports (record w { worker = v }) old n
  unfolding begin_leave
  begin_leave-Reports w old n none v c e q h = become w old n w.worker v (ground (arith, q)) h
  begin_leave-Reports w old n (some d) v c e q h = unsubscribed_with-Reports w old n _ v c e q h

  pub end_leave-Reports :
      (w : World J) (old : List J) (n : ℕ) (ended : Bool) (timeout : ℤ)
      → Reports w old n
      → Reports (record w { worker = (end_leave ended timeout w.worker).0 }) old n
  unfolding end_leave job_of start_of
  end_leave-Reports w old n true timeout h =
      silent (record w { worker = record w.worker { joined = false } }) (worker_stopped w.worker.id)
        old n refl refl
        (record {
          each_once = h.each_once;
          busy_running = h.busy_running;
          flag = h.flag;
          one_start = h.one_start;
        })
  end_leave-Reports w old n false timeout h =
      silent (record w { worker = notify (leave_timeout w.worker.id timeout) w.worker })
        (worker_stopped w.worker.id) old n refl refl
        (silent w (leave_timeout w.worker.id timeout) old n refl refl h)
