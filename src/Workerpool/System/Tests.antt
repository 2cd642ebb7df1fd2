-- ===== src/Workerpool/System/Tests.antt =====
-- A run of the dispatcher with one worker.
use go_asynctasklib.Base.Table
use go_asynctasklib.Workerpool.Claims as Claims
use go_asynctasklib.Workerpool.Worker.{
  Worker, start_loop, claim_taken, take_job, join, subscribed_with, notify, claiming, over,
  choosing, busy,
}
use go_asynctasklib.Workerpool.System as System
use go_asynctasklib.Workerpool.System.{
  System, Step, Reach, Member, new_system, new_member, put, receive, start, later, handles, ready,
  searching, sending, delivered_to,
}
use go_asynctasklib.Base.{◌∷◌, [], true, ℕ, inl, arith, refl, false, ◌≡◌, ◌⊎◌}
use go_asynctasklib.Base.Int.{pos}
use go_asynctasklib.Workerpool.Ticks.{present}
use go_asynctasklib.Base.Errors.{pool, submit_timeout}
use go_asynctasklib.Workerpool.System.Stranded.{Drops, late, dropped_claim-strands}
use go_asynctasklib.Workerpool.System.Progress.{PassesBy, idle_worker-takes}

abbrev claims : Claims.Claims
claims = record {
  cfg = record {
    size = pos 2;
    submit_backoff = pos 50000000;
    submit_timeout = pos 1000000000;
    submit_attempts_per_sec = pos 5;
  };
  subscribers = [];
}

abbrev with_seven : Claims.Claims
with_seven = record claims { subscribers = (7, present) ∷ [] }

-- Worker 7 after its join, with a claim on the channel, and with job 30 taken.
abbrev joined_worker : Worker ℕ
joined_worker = start_loop (pos 5) (new_member (pos 0) 7).worker

abbrev waiting_worker : Worker ℕ
waiting_worker = claim_taken joined_worker

abbrev fetched_worker : Worker ℕ
fetched_worker = take_job 30 waiting_worker

abbrev seventh : Worker ℕ → (ℕ → Member ℕ) → ℕ → Member ℕ
seventh w = put 7 (record { worker = w; input = 1 })

abbrev joined : System ℕ
joined = record (new_system claims 4 (pos 0)) {
  claims = with_seven;
  members = seventh joined_worker (new_member (pos 0));
}

abbrev advertised : System ℕ
advertised = record joined {
  claims_ch = (record { id = 7; input = 1 }) ∷ [];
  members = seventh waiting_worker joined.members;
}

-- Jobs 30 and 40 on the backlog, then the first with the dispatcher.
abbrev submitted : System ℕ
submitted = record advertised { backlog = 30 ∷ 40 ∷ []; accepted = 30 ∷ 40 ∷ [] }

abbrev dispatched : System ℕ
dispatched = record submitted { backlog = 40 ∷ []; phase = searching 30 }

abbrev received_claim : System ℕ
received_claim = record dispatched {
  claims_ch = [];
  phase = sending 30 (record { id = 7; input = 1 });
}

abbrev met : System ℕ
met = record received_claim {
  phase = ready;
  handled = (30, Claims.delivered 7) ∷ [];
  members = seventh fetched_worker advertised.members;
}

join_run : Reach (new_system claims 4 (pos 0)) joined
unfolding put join subscribed_with Claims.subscribe start_loop notify Table.insert
join_run = later start (System.joins 7 (pos 5) joined_worker with_seven (inl refl) refl)

dispatched_run : Reach (new_system claims 4 (pos 0)) dispatched
unfolding put claim_taken start_loop notify
dispatched_run =
    later
      (later
        (later (later join_run (System.advertises 7 refl (omega arith)))
          (System.arrives 30 (omega arith)))
        (System.arrives 40 (omega arith)))
      (System.dispatches 30 (40 ∷ []) refl refl)

run : Reach (new_system claims 4 (pos 0)) met
unfolding put receive start_loop notify claim_taken Table.lookup
run =
    later
      (later dispatched_run (System.receives 30 (record { id = 7; input = 1 }) [] true refl refl))
      (System.meets 30 (record { id = 7; input = 1 }) refl refl refl)

-- The claim is received with no time left, job 30 fails, and job 40 comes up.
abbrev dropped : System ℕ
dropped = record dispatched {
  claims_ch = [];
  phase = receive with_seven false 30 (record { id = 7; input = 1 });
}

abbrev timed_out : System ℕ
timed_out = record dropped {
  phase = ready;
  handled = (30, Claims.failed (pool submit_timeout)) ∷ [];
}

abbrev next_up : System ℕ
next_up = record timed_out { backlog = []; phase = searching 40 }

abbrev no_time : Claims.Round
no_time = record {
  remaining = pos 0;
  subscribers = (7, present) ∷ [];
  arrival = Claims.time_over;
  send_remaining = pos 0;
  accepts = false;
}

dropped_run : Reach dropped next_up
unfolding receive Table.lookup Claims.round
dropped_run =
    later (later start (System.fails 30 no_time (pool submit_timeout) refl refl refl))
      (System.dispatches 40 [] refl refl)

dropped_claim : Drops dispatched 7 dropped
unfolding put
dropped_claim = late 30 (record { id = 7; input = 1 }) [] refl refl refl refl

same_channel : (next_up.members 7).input ≡ (dispatched.members 7).input
unfolding put
same_channel = refl

dropped_claim-strands_example :
    (((next_up.members 7).worker.loop ≡ claiming) ⊎ ((next_up.members 7).worker.loop ≡ over))
    × (delivered_to 7 next_up.handled ≡ delivered_to 7 dispatched.handled)
dropped_claim-strands_example =
    dropped_claim-strands claims 4 (pos 0) dispatched dropped next_up 7 dispatched_run dropped_claim
      dropped_run same_channel

-- Worker 3 has left its claim behind, and worker 7 is at its select.
abbrev idle_system : System ℕ
idle_system = record joined {
  phase = searching 30;
  claims_ch = (record { id = 3; input = 1 }) ∷ [];
}

at_select : (idle_system.members 7).worker.loop ≡ choosing
unfolding put start_loop
at_select = refl

idle_worker-takes_example :
    PassesBy {J = ℕ} idle_system.claims 30 idle_system.claims_ch
    × (u : System ℕ) × Reach idle_system u
    × (u.handled ≡ (30, Claims.delivered 7) ∷ [])
    × ((u.members 7).worker.loop ≡ busy 30)
unfolding Table.lookup
idle_worker-takes_example =
    idle_worker-takes idle_system 30 7 present refl (refl, tt) (omega arith) at_select refl
