-- ===== src/Workerpool/System/Progress.antt =====
-- pool.go, claims.go and worker.go: an idle worker gets the job that the dispatcher has.
use go_asynctasklib.Base.Table
use go_asynctasklib.Base.{
  ◌∷◌, [], true, none, some, ℕ, List, ◌≡◌, ◌++◌, refl, arith, ◌<◌, ap, length, ◌∙◌, Bool,
}
use go_asynctasklib.Workerpool.System as System
use go_asynctasklib.Workerpool.System.{
  System, Step, Reach, Claim, Member, Phase, starts_job, put, receive, searching, sending, ready,
}
use go_asynctasklib.Workerpool.Claims as Claims
use go_asynctasklib.Workerpool.Claims.{delivered}
use go_asynctasklib.Workerpool.Worker.{
  Worker, choosing, busy, fetched, claim_taken, take_job, start_job,
}
use go_asynctasklib.Workerpool.System.Loops.{claim_taken-loop}
use go_asynctasklib.Workerpool.Ticks.{Present}

-- Claims of workers that have left.
abbrev pub AllStale : Claims.Claims → List Claim → Type 0
AllStale c [] = Unit {0}
AllStale c (x ∷ xs) = (Table.lookup x.id c.subscribers ≡ none) × AllStale c xs

module _ {J : Type 0} where
  -- The dispatcher passes each of the claims by and searches on, with time left or not.
  abbrev pub PassesBy : Claims.Claims → J → List Claim → Type 0
  PassesBy c t [] = Unit {0}
  PassesBy c t (x ∷ xs) =
      ((time_left : Bool) → receive c time_left t x ≡ searching t) × PassesBy c t xs

  reach_trans : {s u v : System J} → Reach s u → Reach u v → Reach s v
  reach_trans r System.start = r
  reach_trans r (System.later q x) = System.later (reach_trans r q) x

  receive_stale :
      (c : Claims.Claims) (t : J) (x : Claim)
      → Table.lookup x.id c.subscribers ≡ none
      → (time_left : Bool) → receive c time_left t x ≡ searching t
  unfolding receive
  receive_stale c t x e time_left = rw (receive, e) refl

  passes_by : (c : Claims.Claims) (t : J) (xs : List Claim) → AllStale c xs → PassesBy c t xs
  passes_by c t [] a = tt
  passes_by c t (x ∷ xs) (n, a) = (receive_stale c t x n, passes_by c t xs a)

  receive_live :
      (c : Claims.Claims) (t : J) (x : Claim) (p : Present)
      → Table.lookup x.id c.subscribers ≡ some p
      → receive c true t x ≡ sending t x
  unfolding receive
  receive_live c t x p e = rw (receive, e) refl

  -- The state `u` is `s` with its stale claims gone.
  record IsDrained (s u : System J) (t : J) : Type 0 where
    reached : Reach s u
    still : u.phase ≡ searching t
    empty : u.claims_ch ≡ []
    same_claims : u.claims ≡ s.claims
    same_size : u.claims_size ≡ s.claims_size
    same_members : u.members ≡ s.members
    same_handled : u.handled ≡ s.handled

  drains :
      (xs : List Claim) (s : System J) (t : J)
      → s.phase ≡ searching t
      → s.claims_ch ≡ xs
      → AllStale s.claims xs
      → (u : System J) × IsDrained s u t
  drains [] s t p e a = (
    s,
    record {
      reached = System.start;
      still = p;
      empty = e;
      same_claims = refl;
      same_size = refl;
      same_members = refl;
      same_handled = refl;
    },
  )
  drains (x ∷ xs) s t p e (n, a) =
      let s' = record s { claims_ch = xs; phase = receive s.claims true t x } in
      let (u, h) = drains xs s' t (receive_stale s.claims t x n true) refl a in
      (
        u,
        record {
          reached =
              reach_trans (System.later System.start (System.receives t x xs true p e)) h.reached;
          still = h.still;
          empty = h.empty;
          same_claims = h.same_claims;
          same_size = h.same_size;
          same_members = h.same_members;
          same_handled = h.same_handled;
        },
      )

  put_same : (i : ℕ) (m : Member J) (f : ℕ → Member J) → put i m f i ≡ m
  unfolding put
  put_same i m f = ground arith

  fetched_loop : (t : J) (w : Worker J) → (take_job t w).loop ≡ fetched t
  unfolding take_job
  fetched_loop t w = refl

  taken_loop : (t : J) (w : Worker J) → (start_job t w).loop ≡ busy t
  unfolding start_job
  taken_loop t w = refl

  -- The three steps of a handover, with no other claim on the channel.
  hands_over :
      (s : System J) (t : J) (i : ℕ) (p : Present)
      → s.phase ≡ searching t
      → s.claims_ch ≡ []
      → 0 < s.claims_size
      → (s.members i).worker.loop ≡ choosing
      → Table.lookup i s.claims.subscribers ≡ some p
      → (u : System J) × Reach s u
        × (u.handled ≡ s.handled ++ ((t, delivered i) ∷ []))
        × ((u.members i).worker.loop ≡ busy t)
  hands_over s t i p e n room l live =
      let m = s.members i in
      let c : Claim = record { id = i; input = m.input } in
      let w : Member J = record m { worker = claim_taken m.worker } in
      let s1 = record s { claims_ch = s.claims_ch ++ (c ∷ []); members = put i w s.members } in
      let s2 = record s1 { claims_ch = []; phase = receive s.claims true t c } in
      let at : s2.members i ≡ w = put_same i w s.members in
      let taken : Member J = record (s2.members i) { worker = take_job t (s2.members i).worker } in
      let s3 = record s2 {
        phase = ready;
        handled = s.handled ++ ((t, delivered i) ∷ []);
        members = put i taken s2.members;
      } in
      let there : s3.members i ≡ taken = put_same i taken s2.members in
      let started : Member J = record (s3.members i) {
        worker = start_job t (s3.members i).worker;
      } in
      (
        record s3 { members = put i started s3.members },
        System.later
            (System.later
              (System.later
                (System.later System.start
                  (System.advertises i l (omega (arith, ap length n, room))))
                (System.receives t c [] true e (ap (λ xs. xs ++ (c ∷ [])) n)))
              (System.meets t c (receive_live s.claims t c p live)
                (ap (λ (x : Member J). x.input) at)
                (ap (λ (x : Member J). x.worker.loop) at ∙ claim_taken-loop m.worker)))
            (System.works i (start_job t (s3.members i).worker) (
              starts_job t (
                ap (λ (x : Member J). x.worker.loop) there
                ∙ fetched_loop t (s2.members i).worker))),
        refl,
        ap (λ (x : Member J). x.worker.loop) (put_same i started s3.members)
            ∙ taken_loop t (s3.members i).worker,
      )

  -- Where the dispatcher has a job, a worker of the pool stands at its select, and the channel has no
  -- claim but those of workers that have left, the dispatcher passes each of these claims by with
  -- its job still to hand on, whether or not the send would find time left, and some steps of the
  -- two then deliver the job to this worker, which starts its handler.
  pub idle_worker-takes :
      (s : System J) (t : J) (i : ℕ) (p : Present)
      → s.phase ≡ searching t
      → AllStale s.claims s.claims_ch
      → 0 < s.claims_size
      → (s.members i).worker.loop ≡ choosing
      → Table.lookup i s.claims.subscribers ≡ some p
      → PassesBy s.claims t s.claims_ch
        × (u : System J) × Reach s u
        × (u.handled ≡ s.handled ++ ((t, delivered i) ∷ []))
        × ((u.members i).worker.loop ≡ busy t)
  idle_worker-takes s t i p e a room l live =
      let (d, h) = drains s.claims_ch s t e refl a in
      let (u, r, f, g) =
        hands_over d t i p h.still h.empty (omega (arith, h.same_size, room))
          (ap (λ (f : ℕ → Member J). (f i).worker.loop) h.same_members ∙ l)
          (ap (λ (c : Claims.Claims). Table.lookup i c.subscribers) h.same_claims ∙ live) in
      (
        passes_by s.claims t s.claims_ch a,
        u,
        reach_trans h.reached r,
        f ∙ ap (λ hs. hs ++ ((t, delivered i) ∷ [])) h.same_handled,
        g,
      )
