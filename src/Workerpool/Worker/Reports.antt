-- ===== src/Workerpool/Worker/Reports.antt =====
-- worker.go: what the loop of a worker reports of the jobs that it takes.
use go_asynctasklib.Workerpool.Worker.{
  Worker, Event, Loop, Handled, notify, end_loop, claim_taken, take_job, finish_job, report,
  start_job, settle_job, exit_job, begin_leave, end_leave, choosing, busy, claiming, fetched,
  exited, settling, job_failed, worker_started, job_ok, over,
}
use go_asynctasklib.Base.{
  List, ◌≡◌, Bool, ℕ, true, ◌∷◌, ◌++◌, [], false, ◌+◌, suc, ltb, if◌then◌else◌, Option, some, arith,
  none, ap, ◌∙◌, refl, sym,
}
use go_asynctasklib.Base.Int.{ℤ}
use go_asynctasklib.Workerpool.Claims.{Claims}
use go_asynctasklib.Base.Errors.{Error}
use mathlib.Core.List.{append-nil, append_assoc}

-- The worker with the jobs that it has taken from its input and the number of claims it has sent.
pub record World (J : Type 0) : Type 0 where
  pub worker : Worker J
  pub taken : List J
  pub claimed : ℕ

-- One action of the loop, of leave, or the end of the worker's context.
pub data Step {J : Type 0} (w : World J) : World J → Type 0 where
  idles : w.worker.loop ≡ choosing → Step w w
  ends_choosing :
      w.worker.loop ≡ choosing
      → w.worker.canceled ≡ true
      → Step w (record w { worker = end_loop w.worker })
  claims :
      w.worker.loop ≡ choosing
      → Step w (record w { worker = claim_taken w.worker; claimed = suc w.claimed })
  ends_claiming :
      w.worker.loop ≡ claiming
      → w.worker.canceled ≡ true
      → Step w (record w { worker = end_loop w.worker })
  takes :
      (t : J)
      → w.worker.loop ≡ claiming
      → Step w (record w { worker = take_job t w.worker; taken = w.taken ++ (t ∷ []) })
  starts_job :
      (t : J) → w.worker.loop ≡ fetched t → Step w (record w { worker = start_job t w.worker })
  handles :
      (t : J) (h : Handled)
      → w.worker.loop ≡ busy t
      → Step w (record w { worker = finish_job t h w.worker })
  exits : (t : J) → w.worker.loop ≡ busy t → Step w (record w { worker = exit_job t w.worker })
  settles :
      (now : ℤ) → w.worker.loop ≡ settling → Step w (record w { worker = settle_job now w.worker })
  context_ends : Step w (record w { worker = record w.worker { canceled = true } })
  leaves :
      (jobs : Option Claims) (v : Worker J) (c : Option Claims) (e : Option Error)
      → begin_leave jobs w.worker ≡ some (v, c, e)
      → Step w (record w { worker = v })
  left :
      (timeout : ℤ)
      → w.worker.loop ≡ over
      → Step w (record w { worker = (end_leave true timeout w.worker).0 })
  left_exited :
      (t : J) (timeout : ℤ)
      → w.worker.loop ≡ exited t
      → Step w (record w { worker = (end_leave true timeout w.worker).0 })
  leave_times_out :
      (timeout : ℤ) → Step w (record w { worker = (end_leave false timeout w.worker).0 })

pub data Reach {J : Type 0} (w : World J) : World J → Type 0 where
  start : Reach w w
  later : {u v : World J} → Reach w u → Step u v → Reach w v

module _ {J : Type 0} where
  -- The job that an event reports as handled.
  unfoldable pub job_of : Event J → List J
  job_of (job_failed e t) = t ∷ []
  job_of (job_ok t) = t ∷ []
  job_of e = []

  unfoldable pub start_of : Event J → ℕ
  start_of (worker_started i) = 1
  start_of e = 0

  -- The jobs that the events report, in order.
  unfoldable pub reported : List (Event J) → List J
  reported [] = []
  reported (e ∷ es) = job_of e ++ reported es

  unfoldable pub starts : List (Event J) → ℕ
  starts [] = 0
  starts (e ∷ es) = start_of e + starts es

  -- The job that was taken and not reported: in the worker's hand, or lost with its goroutine.
  abbrev pub in_hand : Loop J → List J
  in_hand (fetched t) = t ∷ []
  in_hand (busy t) = t ∷ []
  in_hand (exited t) = t ∷ []
  in_hand l = []

  -- Whether IsRunning has to answer true.
  abbrev pub is_busy : Loop J → Bool
  is_busy (busy t) = true
  is_busy settling = true
  is_busy (exited t) = true
  is_busy l = false

  pub record Reports (w : World J) (old_jobs : List J) (old_starts : ℕ) : Type 0 where
    pub each_once : reported w.worker.events ++ in_hand w.worker.loop ≡ old_jobs ++ w.taken
    pub busy_running : w.worker.running ≡ is_busy w.worker.loop
    pub flag : w.worker.started_notified ≡ ltb 0 w.claimed
    pub one_start : starts w.worker.events ≡ old_starts + (if ltb 0 w.claimed then 1 else 0)

  pub reported_snoc :
      (es : List (Event J)) (e : Event J) → reported (es ++ (e ∷ [])) ≡ reported es ++ job_of e
  unfolding reported
  reported_snoc [] e = append-nil (job_of e)
  reported_snoc (x ∷ es) e =
      ap (λ ts. job_of x ++ ts) (reported_snoc es e)
      ∙ sym (append_assoc (job_of x) (reported es) (job_of e))

  pub starts_snoc :
      (es : List (Event J)) (e : Event J) → starts (es ++ (e ∷ [])) ≡ starts es + start_of e
  unfolding starts
  starts_snoc [] e = omega arith
  starts_snoc (x ∷ es) e = omega (arith, starts_snoc es e)

  pub report-job_of : (t : J) (r : Option Error) → job_of (report t r) ≡ t ∷ []
  unfolding job_of report
  report-job_of t none = refl
  report-job_of t (some e) = refl

  pub report-start_of : (t : J) (r : Option Error) → start_of (report t r) ≡ 0
  unfolding start_of report
  report-start_of t none = refl
  report-start_of t (some e) = refl

  -- An event that reports neither a job nor a start.
  pub silent :
      (w : World J) (e : Event J) (old : List J) (n : ℕ)
      → job_of e ≡ []
      → start_of e ≡ 0
      → Reports w old n
      → Reports (record w { worker = notify e w.worker }) old n
  unfolding notify
  silent w e old n j s h = record {
    each_once =
        ap (λ ts. ts ++ in_hand w.worker.loop)
          (reported_snoc w.worker.events e
            ∙ ap (λ ts. reported w.worker.events ++ ts) j
            ∙ append-nil (reported w.worker.events))
        ∙ h.each_once;
    busy_running = h.busy_running;
    flag = h.flag;
    one_start = starts_snoc w.worker.events e ∙ omega (arith, s, h.one_start);
  }
