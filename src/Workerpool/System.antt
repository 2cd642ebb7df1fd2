-- ===== src/Workerpool/System.antt =====
-- pkg/workerpool: the dispatcher of pool.go, the loop of submit in claims.go and the workers of
-- worker.go together, over the claims channel that they share.
mod Keeping
mod Causes
pub mod Delivery
mod Loops
mod Moves
mod Counting
pub mod Stranded
pub mod Progress
mod Tests
use go_asynctasklib.Workerpool.Claims as Claims
use go_asynctasklib.Workerpool.Claims.{Round, Outcome, delivered, failed}
use go_asynctasklib.Workerpool.Worker.{
  Worker, Handled, end_loop, claim_taken, take_job, finish_job, begin_leave, end_leave, join,
  start_job, settle_job, exit_job, choosing, claiming, busy, fetched, settling, exited, over,
  unstarted,
}
use go_asynctasklib.Base.Table
use go_asynctasklib.Base.{
  ◌∷◌, [], true, false, none, some, ℕ, ◌≡◌, Bool, length, List, ◌⊎◌, if◌then◌else◌, ◌<◌, ◌==◌, ◌++◌,
  suc, Option,
}
use go_asynctasklib.Base.Int.{ℤ, pos, pos_part}
use go_asynctasklib.Base.Errors.{Error}

-- A claim of a worker, with the input channel that it was made with.
pub record Claim : Type 0 where
  pub id : ℕ
  pub input : ℕ

-- A worker with its input channel; each join makes a new one.
pub record Member (J : Type 0) : Type 0 where
  pub worker : Worker J
  pub input : ℕ

-- Where the dispatcher stands: at its select, in the loop of submit with a job, or at the send of
-- the job to a claim that it has received.
pub data Phase (J : Type 0) : Type 0 where
  ready : Phase J
  searching : J → Phase J
  sending : J → Claim → Phase J

-- `claims_ch` is the channel of the claims, oldest first; `handled` has the end of each call of
-- submit, and `accepted` what Submit has put on the backlog.
pub record System (J : Type 0) : Type 0 where
  pub claims : Claims.Claims
  pub claims_size : ℕ
  pub claims_ch : List Claim
  pub capacity : ℕ
  pub backlog : List J
  pub phase : Phase J
  pub members : ℕ → Member J
  pub handled : List (J × Outcome)
  pub accepted : List J

-- An action of a worker that concerns nobody else.
pub data Own {J : Type 0} (w : Worker J) : Worker J → Type 0 where
  ends : (w.loop ≡ choosing) ⊎ (w.loop ≡ claiming) → w.canceled ≡ true → Own w (end_loop w)
  starts_job : (t : J) → w.loop ≡ fetched t → Own w (start_job t w)
  handles : (t : J) (h : Handled) → w.loop ≡ busy t → Own w (finish_job t h w)
  exits : (t : J) → w.loop ≡ busy t → Own w (exit_job t w)
  settles : (now : ℤ) → w.loop ≡ settling → Own w (settle_job now w)
  context_ends : Own w (record w { canceled = true })
  left : (timeout : ℤ) → w.loop ≡ over → Own w (end_leave true timeout w).0
  left_exited : (t : J) (timeout : ℤ) → w.loop ≡ exited t → Own w (end_leave true timeout w).0
  leave_times_out : (timeout : ℤ) → Own w (end_leave false timeout w).0

module _ {J : Type 0} where
  unfoldable pub put : ℕ → Member J → (ℕ → Member J) → ℕ → Member J
  put i m f j = if i == j then m else f j

  -- A claim that submit has received: the ID has to be subscribed, and time left for the send.
  unfoldable pub receive : Claims.Claims → Bool → J → Claim → Phase J
  receive c time_left t claim = elim (Table.lookup claim.id c.subscribers) [
    | none ↦ searching t
    | some _ ↦ if time_left then sending t claim else searching t
  ]

pub data Step {J : Type 0} (s : System J) : System J → Type 0 where
  arrives :
      (t : J)
      → length s.backlog < s.capacity
      → Step s (record s { backlog = s.backlog ++ (t ∷ []); accepted = s.accepted ++ (t ∷ []) })
  dispatches :
      (t : J) (ts : List J)
      → s.phase ≡ ready
      → s.backlog ≡ t ∷ ts
      → Step s (record s { backlog = ts; phase = searching t })
  receives :
      (t : J) (c : Claim) (cs : List Claim) (time_left : Bool)
      → s.phase ≡ searching t
      → s.claims_ch ≡ c ∷ cs
      → Step s (record s { claims_ch = cs; phase = receive s.claims time_left t c })
  -- A round of the loop that ends it with an error.
  fails :
      (t : J) (r : Round) (e : Error)
      → s.phase ≡ searching t
      → r.subscribers ≡ s.claims.subscribers
      → Claims.round s.claims r ≡ some (failed e)
      → Step s (record s { phase = ready; handled = s.handled ++ ((t, failed e) ∷ []) })
  -- The send meets the receive of the worker, which holds the same channel.
  meets :
      (t : J) (c : Claim)
      → s.phase ≡ sending t c
      → (s.members c.id).input ≡ c.input
      → (s.members c.id).worker.loop ≡ claiming
      → Step s (record s {
        phase = ready;
        handled = s.handled ++ ((t, delivered c.id) ∷ []);
        members =
            put c.id
              (record (s.members c.id) { worker = take_job t (s.members c.id).worker })
              s.members;
      })
  -- The wait for the worker is over, and the claim is gone.
  gives_up : (t : J) (c : Claim) → s.phase ≡ sending t c → Step s (record s { phase = searching t })
  advertises :
      (i : ℕ)
      → (s.members i).worker.loop ≡ choosing
      → length s.claims_ch < s.claims_size
      → Step s (record s {
        claims_ch = s.claims_ch ++ (record { id = i; input = (s.members i).input } ∷ []);
        members =
            put i (record (s.members i) { worker = claim_taken (s.members i).worker }) s.members;
      })
  works :
      (i : ℕ) (v : Worker J)
      → Own (s.members i).worker v
      → Step s (record s { members = put i (record (s.members i) { worker = v }) s.members })
  -- A join that returns nil, of a worker with no loop.
  joins :
      (i : ℕ) (now : ℤ) (v : Worker J) (d : Claims.Claims)
      → ((s.members i).worker.loop ≡ unstarted) ⊎ ((s.members i).worker.loop ≡ over)
      → join (some none) now (some s.claims) (s.members i).worker ≡ (v, some d, none)
      → Step s (record s {
        claims = d;
        members = put i (record { worker = v; input = suc (s.members i).input }) s.members;
      })
  -- A join that returns an error.
  join_fails :
      (i : ℕ) (ctx : Option (Option Error)) (now : ℤ) (v : Worker J) (d : Claims.Claims) (e : Error)
      → join ctx now (some s.claims) (s.members i).worker ≡ (v, some d, some e)
      → Step s
          (record s { claims = d; members = put i (record (s.members i) { worker = v }) s.members })
  leaves :
      (i : ℕ) (v : Worker J) (d : Claims.Claims) (e : Option Error)
      → begin_leave (some s.claims) (s.members i).worker ≡ some (v, some d, e)
      → Step s
          (record s { claims = d; members = put i (record (s.members i) { worker = v }) s.members })

pub data Reach {J : Type 0} (s : System J) : System J → Type 0 where
  start : Reach s s
  later : {u v : System J} → Reach s u → Step u v → Reach s v

module _ {J : Type 0} where
  -- The worker with an ID as createWorkers makes it.
  abbrev pub new_member : ℤ → ℕ → Member J
  new_member now i = record {
    worker = record {
      id = i;
      idle_timeout = pos 100000000;
      last_active_at = now;
      running = false;
      started_notified = false;
      joined = false;
      canceled = false;
      loop = unstarted;
      events = [];
    };
    input = 0;
  }

  abbrev pub new_system : Claims.Claims → ℕ → ℤ → System J
  new_system c capacity now = record {
    claims = c;
    claims_size = pos_part c.cfg.size;
    claims_ch = [];
    capacity = capacity;
    backlog = [];
    phase = ready;
    members = new_member now;
    handled = [];
    accepted = [];
  }

  -- The job that the dispatcher has, and the claim that it has received.
  abbrev pub held : Phase J → List J
  held ready = []
  held (searching t) = t ∷ []
  held (sending t c) = t ∷ []

  abbrev pub received : Phase J → List Claim
  received (sending t c) = c ∷ []
  received p = []

  -- The jobs that a worker was given, of the ends of the calls of submit.
  abbrev pub given : ℕ → J × Outcome → List J
  given i (t, delivered w) = if w == i then t ∷ [] else []
  given i (t, failed e) = []

  abbrev pub delivered_to : ℕ → List (J × Outcome) → List J
  delivered_to i [] = []
  delivered_to i (h ∷ hs) = given i h ++ delivered_to i hs
