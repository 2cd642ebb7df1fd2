-- ===== src/Workerpool/System/Stranded.antt =====
-- claims.go and worker.go: what becomes of a worker whose claim the dispatcher drops.
use go_asynctasklib.Workerpool.System.Counting.{
  Counted, waits_over, AllCounted, Reach-AllCounted, new_system-AllCounted,
}
use go_asynctasklib.Base.{
  ◌∷◌, [], false, none, some, ℕ, List, ◌≡◌, inl, inr, ◌≤◌, ◌<◌, subst, sym, arith, ◌⊎◌, suc, refl,
  ap, ◌∙◌, ◌++◌,
}
use go_asynctasklib.Base.Table
use go_asynctasklib.Workerpool.System as System
use go_asynctasklib.Workerpool.System.{
  System, Step, Reach, Claim, Member, new_system, delivered_to, received, put, receive, searching,
  sending,
}
use go_asynctasklib.Workerpool.System.Moves.{
  Move, Step-Moves, count, outstanding, stays, finishes, claims, takes, restarts,
}
use go_asynctasklib.Workerpool.System.Loops.{waits}
use go_asynctasklib.Workerpool.Worker.{
  Loop, unstarted, over, claiming, choosing, settling, fetched, busy, exited,
}
use go_asynctasklib.Workerpool.Claims as Claims
use go_asynctasklib.Base.Int.{ℤ}

module _ {J : Type 0} where
  -- The dispatcher drops the claim of a worker `i` that waits behind it: after the claim no time is
  -- left for the send, or the wait for the worker is over.
  pub data Drops (s : System J) (i : ℕ) : System J → Type 0 where
    late :
        (t : J) (c : Claim) (cs : List Claim)
        → s.phase ≡ searching t
        → s.claims_ch ≡ c ∷ cs
        → c.id ≡ i
        → c.input ≡ (s.members i).input
        → Drops s i (record s { claims_ch = cs; phase = receive s.claims false t c })
    given_up :
        (t : J) (c : Claim)
        → s.phase ≡ sending t c
        → c.id ≡ i
        → c.input ≡ (s.members i).input
        → Drops s i (record s { phase = searching t })

  -- The worker waits at its input, or has ended, and no claim of it is on its way.
  record Stranded (m : Member J) (i g : ℕ) (cs : List Claim) (ts us : List J) : Type 0 where
    same_input : m.input ≡ g
    waiting : (m.worker.loop ≡ claiming) ⊎ (m.worker.loop ≡ over)
    no_claim : count i g cs ≡ 0
    nothing_new : us ≡ ts

  abbrev StrandedIn : System J → ℕ → ℕ → List J → Type 0
  StrandedIn s i g ts = Stranded (s.members i) i g (outstanding s) ts (delivered_to i s.handled)

  not_waiting : (l k : Loop J) → l ≡ k → waits k ≡ 0 → (l ≡ claiming) ⊎ (l ≡ over) → ⊥
  not_waiting l k e z (inl f) = ground (arith, z, ap waits (sym e ∙ f))
  not_waiting l k e z (inr f) = ground (arith, z, ap waits (sym e ∙ f))

  -- What a step makes of a stranded worker.
  Move-Stranded :
      (s : System J) (i g : ℕ) (ts : List J) (m : Member J) (cs : List Claim) (us : List J)
      → Move s i m cs us
      → StrandedIn s i g ts
      → Stranded m i g cs ts us ⊎ (g < m.input)
  Move-Stranded s i g ts m cs us (stays (inl l) e k d) h = inl (record {
    same_input = e ∙ h.same_input;
    waiting = subst (λ x. (x ≡ claiming) ⊎ (x ≡ over)) (sym l) h.waiting;
    no_claim = omega (arith, k g, h.no_claim);
    nothing_new = d ∙ h.nothing_new;
  })
  Move-Stranded s i g ts m cs us (stays (inr l) e k d) h = inl (record {
    same_input = e ∙ h.same_input;
    waiting = inr l;
    no_claim = omega (arith, k g, h.no_claim);
    nothing_new = d ∙ h.nothing_new;
  })
  Move-Stranded s i g ts m cs us (finishes z z' e k) h = absurd (not_waiting _ _ refl z h.waiting)
  Move-Stranded s i g ts m cs us (claims l l' e k) h = absurd (not_waiting _ _ l refl h.waiting)
  Move-Stranded s i g ts m cs us (takes t l l' e k) h =
      absurd (ground (arith, k g, h.no_claim, e, h.same_input))
  Move-Stranded s i g ts m cs us (restarts l e k) h = inr (omega (arith, e, h.same_input))

  Move-input :
      (s : System J) (i : ℕ) (m : Member J) (cs : List Claim) (us : List J)
      → Move s i m cs us
      → (s.members i).input ≤ m.input
  Move-input s i m cs us (stays l e k d) = omega (arith, e)
  Move-input s i m cs us (finishes z z' e k) = omega (arith, e)
  Move-input s i m cs us (claims l l' e k) = omega (arith, e)
  Move-input s i m cs us (takes t l l' e k) = omega (arith, e)
  Move-input s i m cs us (restarts l e k) = omega (arith, e)

  Reach-Stranded :
      {s u : System J} (i g : ℕ) (ts : List J)
      → Reach s u
      → StrandedIn s i g ts
      → StrandedIn u i g ts ⊎ (g < (u.members i).input)
  Reach-Stranded i g ts System.start h = inl h
  Reach-Stranded i g ts (System.later r x) h = elim (Reach-Stranded i g ts r h) [
    | inl k ↦ Move-Stranded _ i g ts _ _ _ (Step-Moves x i) k
    | inr k ↦ inr (omega (arith, k, Move-input _ i _ _ _ (Step-Moves x i)))
  ]

  waits_cases : (l : Loop J) → 1 ≤ waits l → (l ≡ claiming) ⊎ (l ≡ over)
  waits_cases unstarted p = absurd (omega (arith, p))
  waits_cases choosing p = absurd (omega (arith, p))
  waits_cases claiming p = inl refl
  waits_cases over p = inr refl
  waits_cases settling p = absurd (omega (arith, p))
  waits_cases (fetched t) p = absurd (omega (arith, p))
  waits_cases (busy t) p = absurd (omega (arith, p))
  waits_cases (exited t) p = absurd (omega (arith, p))

  -- The dropped claim was the only one.
  gone :
      (s : System J) (i : ℕ) (c : Claim) (cs ds : List Claim)
      → outstanding s ≡ c ∷ cs
      → c.id ≡ i
      → c.input ≡ (s.members i).input
      → ((g : ℕ) → count i g ds ≤ count i g cs)
      → Counted (s.members i) i (outstanding s)
      → Stranded
          (s.members i)
          i
          (s.members i).input
          ds
          (delivered_to i s.handled)
          (delivered_to i s.handled)
  gone s i c cs ds e f k l h =
      let one : suc (count i (s.members i).input cs) ≡ count i (s.members i).input (outstanding s) =
        ground (arith, f, k, ap (count i (s.members i).input) e) in
      let most = waits_over (s.members i).worker.loop in
      record {
        same_input = refl;
        waiting = waits_cases (s.members i).worker.loop (omega (arith, one, h.own));
        no_claim = omega (arith, one, most, h.own, l (s.members i).input);
        nothing_new = refl;
      }

  receive_late : (c : Claims.Claims) (t : J) (x : Claim) → received (receive c false t x) ≡ []
  unfolding receive
  receive_late c t x =
      elim (Table.lookup x.id c.subscribers)
        as (λ l. received (elim l [ none ↦ searching t | some _ ↦ searching t ]) ≡ []) [
          | none ↦ refl
          | some _ ↦ refl
        ]

  Drops-Stranded :
      (s u : System J) (i : ℕ)
      → Drops s i u
      → AllCounted s
      → StrandedIn u i (s.members i).input (delivered_to i s.handled)
  Drops-Stranded s u i (late t c cs p q f k) h =
      gone s i c cs _ (ap (λ x. received x ++ s.claims_ch) p ∙ q) f k
        (λ g. omega (arith, ap (λ ds. count i g (ds ++ cs)) (receive_late s.claims t c))) (h i)
  Drops-Stranded s u i (given_up t c p f k) h =
      gone s i c s.claims_ch s.claims_ch (ap (λ x. received x ++ s.claims_ch) p) f k
        (λ g. omega arith) (h i)

  -- A worker whose only claim the dispatcher drops gets no job any more: until it joins anew, in
  -- any order of the steps of the system, it waits at its input or its loop has ended, and the jobs
  -- that were delivered to it stay the same, whatever is submitted.
  pub dropped_claim-strands :
      (c : Claims.Claims) (capacity : ℕ) (now : ℤ) (s u v : System J) (i : ℕ)
      → Reach (new_system c capacity now) s
      → Drops s i u
      → Reach u v
      → (v.members i).input ≡ (s.members i).input
      → (((v.members i).worker.loop ≡ claiming) ⊎ ((v.members i).worker.loop ≡ over))
        × (delivered_to i v.handled ≡ delivered_to i s.handled)
  dropped_claim-strands c capacity now s u v i r d r' e =
      elim (Reach-Stranded i _ _ r'
        (Drops-Stranded s u i d (Reach-AllCounted r (new_system-AllCounted J c capacity now)))) [
          | inl h ↦ (h.waiting, h.nothing_new)
          | inr l ↦ absurd (omega (arith, l, e))
        ]
