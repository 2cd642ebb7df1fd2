-- ===== src/Workerpool/System/Counting.antt =====
-- claims.go and worker.go: a worker has one claim on its way at most.
use go_asynctasklib.Base.{ℕ, List, ◌≡◌, inl, inr, ◌≤◌, ◌<◌, subst, sym, arith, suc, refl}
use go_asynctasklib.Workerpool.System as System
use go_asynctasklib.Workerpool.System.{
  System, Step, Reach, Claim, Member, new_system, delivered_to, received, put, receive, searching,
  sending,
}
use go_asynctasklib.Workerpool.System.Moves.{
  Move, Step-Moves, count, outstanding, stays, finishes, claims, takes, restarts,
}
use go_asynctasklib.Workerpool.System.Loops.{waits}
use go_asynctasklib.Workerpool.Worker.{
  Loop, unstarted, over, claiming, choosing, settling, fetched, busy, exited,
}
use go_asynctasklib.Workerpool.Claims as Claims
use go_asynctasklib.Base.Int.{ℤ}

module _ {J : Type 0} where
  -- A worker has a claim on its way only behind the send of it, and none of a later channel.
  pub record Counted (m : Member J) (i : ℕ) (cs : List Claim) : Type 0 where
    pub own : count i m.input cs ≤ waits m.worker.loop
    pub later_none : (g : ℕ) → m.input < g → count i g cs ≡ 0

  at_loop :
      (m : Member J) (l : Loop J) (i : ℕ) (cs : List Claim)
      → m.worker.loop ≡ l
      → Counted m i cs
      → count i m.input cs ≤ waits l
  at_loop m l i cs e h = subst (λ x. count i m.input cs ≤ waits x) e h.own

  counted :
      (m : Member J) (n : ℕ) (l : Loop J) (i : ℕ) (cs : List Claim)
      → m.input ≡ n
      → m.worker.loop ≡ l
      → count i n cs ≤ waits l
      → ((g : ℕ) → n < g → count i g cs ≡ 0)
      → Counted m i cs
  counted m n l i cs e f k z = record {
    own =
        subst (λ x. count i m.input cs ≤ waits x) (sym f)
          (subst (λ x. count i x cs ≤ waits l) (sym e) k);
    later_none = λ g p. z g (omega (arith, e, p));
  }

  pub waits_over : (l : Loop J) → waits l ≤ 1
  waits_over unstarted = omega arith
  waits_over choosing = omega arith
  waits_over claiming = omega arith
  waits_over over = omega arith
  waits_over settling = omega arith
  waits_over (fetched t) = omega arith
  waits_over (busy t) = omega arith
  waits_over (exited t) = omega arith

  Move-Counted :
      (s : System J) (i : ℕ) (m : Member J) (cs : List Claim) (ts : List J)
      → Move s i m cs ts
      → Counted (s.members i) i (outstanding s)
      → Counted m i cs
  Move-Counted s i m cs ts (stays (inl l) e k d) h =
      counted m _ _ i cs e l (omega (arith, k (s.members i).input, h.own))
        (λ g p. omega (arith, k g, h.later_none g p))
  Move-Counted s i m cs ts (stays (inr l) e k d) h =
      counted m _ _ i cs e l
        (omega (arith, k (s.members i).input, h.own, waits_over (s.members i).worker.loop))
        (λ g p. omega (arith, k g, h.later_none g p))
  Move-Counted s i m cs ts (finishes z z' e k) h =
      counted m _ _ i cs e refl (omega (arith, k (s.members i).input, z, z', h.own))
        (λ g p. omega (arith, k g, h.later_none g p))
  Move-Counted s i m cs ts (claims l l' e k) h =
      counted m _ _ i cs e l' (ground (arith, k (s.members i).input, at_loop _ _ i _ l h))
        (λ g p. ground (arith, e, p, k g, h.later_none g p))
  Move-Counted s i m cs ts (takes t l l' e k) h =
      counted m _ _ i cs e l' (ground (arith, e, k (s.members i).input, at_loop _ _ i _ l h))
        (λ g p. omega (arith, k g, h.later_none g p))
  Move-Counted s i m cs ts (restarts l e k) h =
      counted m _ _ i cs e l
        (omega (
          arith,
          k (suc (s.members i).input),
          h.later_none (suc (s.members i).input) (omega arith),
        ))
        (λ g p. omega (arith, k g, h.later_none g (omega (arith, p))))

  abbrev pub AllCounted : System J → Type 0
  AllCounted s = (i : ℕ) → Counted (s.members i) i (outstanding s)

  pub Reach-AllCounted : {s u : System J} → Reach s u → AllCounted s → AllCounted u
  Reach-AllCounted System.start h = h
  Reach-AllCounted (System.later r x) h =
      λ i. Move-Counted _ i _ _ _ (Step-Moves x i) (Reach-AllCounted r h i)

pub new_system-AllCounted :
    (J : Type 0) (c : Claims.Claims) (capacity : ℕ) (now : ℤ)
    → AllCounted (new_system {J = J} c capacity now)
new_system-AllCounted J c capacity now i = record { own = omega arith; later_none = λ g p. refl }
