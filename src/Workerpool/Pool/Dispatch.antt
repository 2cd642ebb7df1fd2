-- ===== src/Workerpool/Pool/Dispatch.antt =====
-- pool.go: Submit, close and the dispatcher in any order.
use go_asynctasklib.Workerpool.Pool.{
  Pool, enter, place, reject_calls, close_shutdown, cancel, dispatch_errors, proceeds,
}
use go_asynctasklib.Workerpool.Claims as Claims
use go_asynctasklib.Workerpool.Claims.{Round, Outcome}
use go_asynctasklib.Base.{
  ℕ, List, true, Option, ◌≡◌, [], map, none, some, false, ◌∷◌, suc, ◌++◌, ◌<◌, ◌-◌,
}
use go_asynctasklib.Base.Errors.{Error}

-- Whether the dispatcher runs, or has returned with the backlog drained or the context canceled.
pub data Ending : Type 0 where
  running drained_out canceled_out : Ending

-- The pool with the calls of Submit behind their guard, the job that the dispatcher has, the jobs
-- that it has handed to the claims dispatcher with the answers, and the jobs accepted so far and up
-- to its end.
pub record World (J : Type 0) : Type 0 where
  pub pool : Pool J
  pub waiting : ℕ
  pub in_hand : Option J
  pub handled : List (J × Outcome)
  pub errors : List (Error × J)
  pub accepted : List J
  pub at_end : List J
  pub ending : Ending

-- The dispatcher's own actions.
pub data Dispatch {J : Type 0} (w : World J) : World J → Type 0 where
  takes :
      (t : J) (ts : List J)
      → w.ending ≡ running
      → w.in_hand ≡ none
      → w.pool.backlog ≡ t ∷ ts
      → Dispatch w (record w { pool = record w.pool { backlog = ts }; in_hand = some t })
  hands :
      (t : J) (rounds : List Round) (o : Outcome)
      → w.in_hand ≡ some t
      → Claims.submit w.pool.claims rounds ≡ some o
      → Dispatch w (record w {
        in_hand = none;
        handled = w.handled ++ ((t, o) ∷ []);
        errors = w.errors ++ dispatch_errors t o;
      })
  spins : w.ending ≡ running → w.in_hand ≡ none → w.pool.shutdown ≡ true → Dispatch w w
  ends_drained :
      w.ending ≡ running
      → w.in_hand ≡ none
      → w.pool.shutdown ≡ true
      → w.pool.backlog ≡ []
      → Dispatch w (record w { ending = drained_out; at_end = w.accepted })
  ends_canceled :
      w.ending ≡ running
      → w.in_hand ≡ none
      → w.pool.canceled ≡ true
      → Dispatch w (record w { ending = canceled_out; at_end = w.accepted })

-- Those of the callers of Submit and of the closing; the context may be canceled at any time.
pub data Step {J : Type 0} (w : World J) : World J → Type 0 where
  dispatches : {u : World J} → Dispatch w u → Step w u
  enters : enter true w.pool ≡ none → Step w (record w { waiting = suc w.waiting })
  gives_up : 0 < w.waiting → Step w (record w { waiting = w.waiting - 1 })
  places :
      (t : J) (p : Pool J)
      → 0 < w.waiting
      → place proceeds t w.pool ≡ some (p, none)
      → Step w (record w { pool = p; waiting = w.waiting - 1; accepted = w.accepted ++ (t ∷ []) })
  rejects_calls : Step w (record w { pool = reject_calls w.pool })
  closes_shutdown : w.pool.reject ≡ true → Step w (record w { pool = close_shutdown w.pool })
  cancels : Step w (record w { pool = cancel w.pool })

pub data Reach {J : Type 0} (w : World J) : World J → Type 0 where
  start : Reach w w
  later : {u v : World J} → Reach w u → Step u v → Reach w v

-- A run of the dispatcher alone.
pub data Run {J : Type 0} : World J → World J → Type 0 where
  over : {w : World J} → Run w w
  first : {w u v : World J} → Dispatch w u → Run u v → Run w v

module _ {J : Type 0} where
  abbrev pub held : Option J → List J
  held none = []
  held (some t) = t ∷ []

  abbrev pub jobs : List (J × Outcome) → List J
  jobs hs = map (λ h. h.0) hs

  -- The pool that New starts the dispatcher on.
  abbrev pub new_world : Claims.Claims → ℕ → World J
  new_world claims capacity = record {
    pool = record {
      claims = claims;
      capacity = capacity;
      backlog = [];
      reject = false;
      shutdown = false;
      canceled = false;
    };
    waiting = 0;
    in_hand = none;
    handled = [];
    errors = [];
    accepted = [];
    at_end = [];
    ending = running;
  }
