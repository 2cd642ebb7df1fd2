-- ===== src/Workerpool/System/Moves.antt =====
-- pool.go, claims.go and worker.go: what a step does to one worker and to its claims.
use go_asynctasklib.Workerpool.System.Loops.{
  waits, Own-loop, begin_leave-loop, claim_taken-loop, refused-loop,
}
use go_asynctasklib.Workerpool.System.{
  System, Step, Claim, Member, Phase, Own, given, put, receive, delivered_to, received, ready,
  searching, sending, ends, handles, context_ends, left, leave_times_out,
}
use go_asynctasklib.Workerpool.System.Keeping.{given-other, given-failed, join_error, put_each}
use go_asynctasklib.Base.Table
use go_asynctasklib.Workerpool.System as System
use go_asynctasklib.Workerpool.Claims as Claims
use go_asynctasklib.Workerpool.Claims.{Outcome, delivered, failed}
use go_asynctasklib.Workerpool.Worker.{
  Worker, start_loop, notify, over, claiming, choosing, fetched, take_job, claim_taken,
}
use go_asynctasklib.Workerpool.Worker.Once.{join_nil}
use go_asynctasklib.Base.{
  ◌∷◌, [], true, false, none, some, ℕ, List, ◌≡◌, ◌++◌, inl, inr, ap, ◌≤◌, ◌∙◌, sym, if◌then◌else◌,
  ◌+◌, ◌⊎◌, arith, Bool, ◌==◌, refl, suc, ==_refl,
}

-- The claims of a worker with an input channel.
abbrev pub count : ℕ → ℕ → List Claim → ℕ
count i g [] = 0
count i g (c ∷ cs) = (if c.id == i then (if c.input == g then 1 else 0) else 0) + count i g cs

count-append : (i g : ℕ) (cs ds : List Claim) → count i g (cs ++ ds) ≡ count i g cs + count i g ds
count-append i g [] ds = omega arith
count-append i g (c ∷ cs) ds = omega (arith, count-append i g cs ds)

fewer : (cs ds : List Claim) → cs ≡ ds → (i g : ℕ) → count i g cs ≤ count i g ds
fewer cs ds e i g = omega (arith, ap (count i g) e)

module _ {J : Type 0} where
  -- The claims that a job may still be sent to.
  abbrev pub outstanding : System J → List Claim
  outstanding s = received s.phase ++ s.claims_ch

  -- What a step from `s` does to the worker `i`, which becomes `m`, to its claims, which become
  -- `cs`, and to the jobs that were delivered to it, which become `ts`.
  pub data Move (s : System J) (i : ℕ) (m : Member J) (cs : List Claim) (ts : List J) : Type 0 where
    stays :
        (m.worker.loop ≡ (s.members i).worker.loop) ⊎ (m.worker.loop ≡ over)
        → m.input ≡ (s.members i).input
        → ((g : ℕ) → count i g cs ≤ count i g (outstanding s))
        → ts ≡ delivered_to i s.handled
        → Move s i m cs ts
    finishes :
        waits (s.members i).worker.loop ≡ 0
        → waits m.worker.loop ≡ 0
        → m.input ≡ (s.members i).input
        → ((g : ℕ) → count i g cs ≤ count i g (outstanding s))
        → Move s i m cs ts
    claims :
        (s.members i).worker.loop ≡ choosing
        → m.worker.loop ≡ claiming
        → m.input ≡ (s.members i).input
        → ((g : ℕ) → count i g cs ≤ count i g (outstanding s) + (if m.input == g then 1 else 0))
        → Move s i m cs ts
    takes :
        (t : J)
        → (s.members i).worker.loop ≡ claiming
        → m.worker.loop ≡ fetched t
        → m.input ≡ (s.members i).input
        → ((g : ℕ) → count i g cs + (if m.input == g then 1 else 0) ≤ count i g (outstanding s))
        → Move s i m cs ts
    restarts :
        m.worker.loop ≡ choosing
        → m.input ≡ suc (s.members i).input
        → ((g : ℕ) → count i g cs ≤ count i g (outstanding s))
        → Move s i m cs ts

  abbrev pub Moves : System J → System J → Type 0
  Moves s u = (i : ℕ) → Move s i (u.members i) (outstanding u) (delivered_to i u.handled)

  -- A step that leaves the workers alone.
  untouched :
      (s : System J) (cs : List Claim) (hs : List (J × Outcome))
      → ((i g : ℕ) → count i g cs ≤ count i g (outstanding s))
      → ((i : ℕ) → delivered_to i hs ≡ delivered_to i s.handled)
      → (i : ℕ) → Move s i (s.members i) cs (delivered_to i hs)
  untouched s cs hs l e i = stays (inl refl) refl (l i) (e i)

  at_phase : (s : System J) (p : Phase J) → s.phase ≡ p → outstanding s ≡ received p ++ s.claims_ch
  at_phase s p e = ap (λ x. received x ++ s.claims_ch) e

  receive-fewer :
      (c : Claims.Claims) (b : Bool) (t : J) (x : Claim) (cs : List Claim) (i g : ℕ)
      → count i g (received (receive c b t x) ++ cs) ≤ count i g (x ∷ cs)
  unfolding receive
  receive-fewer c b t x cs i g =
      elim (Table.lookup x.id c.subscribers)
        as (λ l.
          count i g (
            received
              (elim l [ none ↦ searching t | some _ ↦ if b then sending t x else searching t ])
            ++ cs)
          ≤ count i g (x ∷ cs)) [
            | none ↦ omega arith
            | some _ ↦
                elim b
                  as (λ b.
                    count i g (received (if b then sending t x else searching t) ++ cs)
                    ≤ count i g (x ∷ cs)) [ true ↦ omega arith | false ↦ omega arith ]
          ]

  -- One worker acts, and the others and the claims stay.
  acts :
      (s : System J) (i : ℕ) (v : Worker J) (n : ℕ)
      → Move s i (record { worker = v; input = n }) (outstanding s) (delivered_to i s.handled)
      → (j : ℕ)
      → Move s j
          (put i (record { worker = v; input = n }) s.members j)
          (outstanding s)
          (delivered_to j s.handled)
  acts s i v n m =
      put_each (λ j (x : Member J). Move s j x (outstanding s) (delivered_to j s.handled)) i
        (record { worker = v; input = n }) s.members m
        (λ j n. stays (inl refl) refl (λ g. omega arith) refl)

  advertised :
      (s : System J) (i n j g : ℕ)
      → count j g (received s.phase ++ (s.claims_ch ++ (record { id = i; input = n } ∷ [])))
        ≡ count j g (outstanding s) + (if i == j then (if n == g then 1 else 0) else 0)
  advertised s i n j g = omega (
    arith,
    count-append j g (received s.phase) (s.claims_ch ++ (record { id = i; input = n } ∷ [])),
    count-append j g s.claims_ch (record { id = i; input = n } ∷ []),
    count-append j g (received s.phase) s.claims_ch,
  )

  pub Step-Moves : {s u : System J} → Step s u → Moves s u
  unfolding take_job start_loop notify
  Step-Moves {s} (System.arrives t l) = untouched s _ s.handled (λ i g. omega arith) (λ i. refl)
  Step-Moves {s} (System.dispatches t ts p b) =
      untouched s _ s.handled (fewer _ _ (sym (at_phase s ready p))) (λ i. refl)
  Step-Moves {s} (System.receives t c cs b p q) =
      untouched s _ s.handled
        (λ i g. omega (
          arith,
          receive-fewer s.claims b t c cs i g,
          fewer _ _ (sym (at_phase s (searching t) p ∙ q)) i g,
        ))
        (λ i. refl)
  Step-Moves {s} (System.fails t r e p q x) =
      untouched s _ (s.handled ++ ((t, failed e) ∷ []))
        (fewer _ _ (sym (at_phase s (searching t) p))) (λ i. given-failed i t e s.handled)
  Step-Moves {s} (System.meets t c p q l) =
      put_each
        (λ j (m : Member J).
          Move s j m s.claims_ch (delivered_to j (s.handled ++ ((t, delivered c.id) ∷ []))))
        c.id _ s.members
        (takes t l refl refl (λ g. ground (
          arith,
          q,
          ap (count c.id g) (at_phase s (sending t c) p),
          ==_refl c.id,
          ap (λ x. x == g) q,
        )))
        (λ j n.
          stays (inl refl) refl
            (λ g. omega (arith, fewer _ _ (sym (at_phase s (sending t c) p)) j g))
            (given-other j c.id t s.handled n))
  Step-Moves {s} (System.gives_up t c p) =
      untouched s _ s.handled
        (λ i g. omega (arith, fewer _ _ (sym (at_phase s (sending t c) p)) i g)) (λ i. refl)
  Step-Moves {s} (System.advertises i l q) =
      let cs =
        received s.phase
        ++ (s.claims_ch ++ (record { id = i; input = (s.members i).input } ∷ [])) in
      put_each (λ j (m : Member J). Move s j m cs (delivered_to j s.handled)) i
        (record { worker = claim_taken (s.members i).worker; input = (s.members i).input })
        s.members
        (claims l (claim_taken-loop (s.members i).worker) refl
          (λ g. ground (arith, advertised s i (s.members i).input i g)))
        (λ j n.
          stays (inl refl) refl (λ g. ground (arith, n, advertised s i (s.members i).input j g))
            refl)
  Step-Moves {s} (System.works i v o) = acts s i v _ (elim (Own-loop _ v o) [
    | inl e ↦ stays e refl (λ g. omega arith) refl
    | inr (e, f) ↦ finishes e f refl (λ g. omega arith)
  ])
  Step-Moves {s} (System.joins i now v d l q) = acts s i v _ (
      restarts (sym (ap (λ (w : Worker J). w.loop) (join_nil now s.claims _ v (some d) q).1)) refl
        (λ g. omega arith))
  Step-Moves {s} (System.join_fails i ctx now v d e q) = acts s i v _ (
      stays (inl (refused-loop _ v (join_error ctx now s.claims _ v (some d) e q))) refl
        (λ g. omega arith) refl)
  Step-Moves {s} (System.leaves i v d e q) =
      acts s i v _
        (stays (inl (begin_leave-loop _ v s.claims (some d) e q)) refl (λ g. omega arith) refl)
