-- ===== src/Workerpool/Victim.antt =====
-- pkg/workerpool/scaler.go: pickVictim, over one reading of each candidate.
use mathlib.Core.Option.{some-injective}
use native.Mathlib.Nat.{add-zero}
use go_asynctasklib.Base.{
  ℕ, suc, ◌+◌, ◌<◌, ◌≡◌, refl, sym, ◌∙◌, Bool, true, false, not, ◌&&◌, Option, none, some, List, [],
  ◌∷◌, get_elem?, if◌then◌else◌, Bool-cases, inl, inr, arith, length, ◌==◌, subst, ap,
}
use go_asynctasklib.Base.Int.{ℤ, ◌-ℤ◌, ◌≤ℤ◌, ltb_ℤ}

pub record IdleCandidate : Type 0 where
  pub is_running : Bool
  pub last_active_at : ℤ

-- The last test of the loop: the first removable candidate, or one that was active earlier.
unfoldable pub choose : List IdleCandidate → ℕ → IdleCandidate → Option ℕ → Option ℕ
choose all i c none = some i
choose all i c (some b) = elim (get_elem? all b) [
  | none ↦ none
  | some d ↦ if ltb_ℤ c.last_active_at d.last_active_at then some i else some b
]

-- One round of the loop, for the candidate at an index; `none` is the index -1.
unfoldable pub consider : List IdleCandidate → ℤ → ℤ → ℕ → IdleCandidate → Option ℕ → Option ℕ
consider all now idle_period i c best =
    if c.is_running
    then best
    else (if ltb_ℤ (now -ℤ c.last_active_at) idle_period then best else choose all i c best)

unfoldable pub consider_from :
    List IdleCandidate → ℤ → ℤ → ℕ → List IdleCandidate → Option ℕ → Option ℕ
consider_from all now idle_period i [] best = best
consider_from all now idle_period i (c ∷ cs) best =
    consider_from all now idle_period (suc i) cs (consider all now idle_period i c best)

unfoldable pub pick_victim : List IdleCandidate → ℤ → ℤ → Option ℕ
pick_victim candidates now idle_period = consider_from candidates now idle_period 0 candidates none

-- The worker is parked and has been for the period.
abbrev pub removable : ℤ → ℤ → IdleCandidate → Bool
removable now idle_period c = not c.is_running && not (ltb_ℤ (now -ℤ c.last_active_at) idle_period)

-- An answer for the candidates below an index.
abbrev pub Picks : List IdleCandidate → ℤ → ℤ → ℕ → Option ℕ → Type 0
Picks all now p k none =
    (j : ℕ) (d : IdleCandidate) → j < k → get_elem? all j ≡ some d → removable now p d ≡ false
Picks all now p k (some i) =
    (c : IdleCandidate) × (get_elem? all i ≡ some c)
    × (removable now p c ≡ true)
    × ((j : ℕ) (d : IdleCandidate)
        → j < k
        → get_elem? all j ≡ some d
        → removable now p d ≡ true
        → c.last_active_at ≤ℤ d.last_active_at)

-- What holds below `k` and of the entry at `k` holds below `suc k`.
below_suc :
    (all : List IdleCandidate) (k : ℕ) (c : IdleCandidate) (P : IdleCandidate → Type 0)
    → get_elem? all k ≡ some c
    → ((j : ℕ) (d : IdleCandidate) → j < k → get_elem? all j ≡ some d → P d)
    → P c
    → (j : ℕ) (d : IdleCandidate) → j < suc k
    → get_elem? all j ≡ some d
    → P d
below_suc all k c P e h x j d l f = elim (Bool-cases (j == k)) [
  | inl b ↦
      let g : get_elem? all j ≡ some c = subst (λ i. get_elem? all i ≡ some c) (ground arith) e in
      subst P (some-injective _ _ (sym g ∙ f)) x
  | inr b ↦ h j d (ground arith) f
]

-- The bound on the other removable candidates.
abbrev Oldest : ℤ → ℤ → ℤ → IdleCandidate → Type 0
Oldest now p t d = removable now p d ≡ true → t ≤ℤ d.last_active_at

keep-Picks :
    (all : List IdleCandidate) (now p : ℤ) (k : ℕ) (c : IdleCandidate) (best : Option ℕ)
    → get_elem? all k ≡ some c
    → removable now p c ≡ false
    → Picks all now p k best
    → Picks all now p (suc k) best
keep-Picks all now p k c none e r h = below_suc all k c (λ d. removable now p d ≡ false) e h r
keep-Picks all now p k c (some i) e r (b, f, q, h) =
    (b, f, q, below_suc all k c (Oldest now p b.last_active_at) e h (λ t. absurd (ground arith)))

-- The case of a removable candidate.
choose-Picks :
    (all : List IdleCandidate) (now p : ℤ) (k : ℕ) (c : IdleCandidate) (best : Option ℕ)
    → get_elem? all k ≡ some c
    → removable now p c ≡ true
    → Picks all now p k best
    → Picks all now p (suc k) (choose all k c best)
unfolding choose
choose-Picks all now p k c none e r h = (
  c,
  e,
  r,
  below_suc all k c (Oldest now p c.last_active_at) e
      (λ j d l f t. absurd (ground (arith, h j d l f))) (λ _. omega arith),
)
choose-Picks all now p k c (some i) e r (b, f, q, h) =
    elim (Bool-cases (ltb_ℤ c.last_active_at b.last_active_at)) [
      | inl g ↦
          rw (choose, f, g)
            (
              c,
              e,
              r,
              below_suc all k c (Oldest now p c.last_active_at) e
                  (λ j d l u t. ground (arith, h j d l u t)) (λ _. omega arith),
            )
      | inr g ↦
          rw (choose, f, g)
            (b, f, q, below_suc all k c (Oldest now p b.last_active_at) e h (λ _. ground arith))
    ]

consider-Picks :
    (all : List IdleCandidate) (now p : ℤ) (k : ℕ) (c : IdleCandidate) (best : Option ℕ)
    → get_elem? all k ≡ some c
    → Picks all now p k best
    → Picks all now p (suc k) (consider all now p k c best)
unfolding consider choose
consider-Picks all now p k c best e h = elim (Bool-cases c.is_running) [
  | inl f ↦ rw f (keep-Picks all now p k c best e (rw f refl) h)
  | inr f ↦ elim (Bool-cases (ltb_ℤ (now -ℤ c.last_active_at) p)) [
    | inl g ↦ rw (f, g) (keep-Picks all now p k c best e (rw (f, g) refl) h)
    | inr g ↦ rw (f, g) (choose-Picks all now p k c best e (rw (f, g) refl) h)
  ]
]

consider_from-Picks :
    (all rest : List IdleCandidate) (now p : ℤ) (k : ℕ) (best : Option ℕ)
    → ((j : ℕ) → get_elem? all (k + j) ≡ get_elem? rest j)
    → Picks all now p k best
    → Picks all now p (k + length rest) (consider_from all now p k rest best)
unfolding consider_from
consider_from-Picks all [] now p k best e h = rw (add-zero k) h
consider_from-Picks all (c ∷ cs) now p k best e h =
    let here : get_elem? all k ≡ some c = rw (sym (add-zero k)) (e 0) in
    let later : (j : ℕ) → get_elem? all (suc k + j) ≡ get_elem? cs j =
      λ j. subst (λ i. get_elem? all i ≡ get_elem? cs j) (omega arith) (e (suc j)) in
    subst (λ i. Picks all now p i (consider_from all now p k (c ∷ cs) best)) (omega arith)
      (consider_from-Picks all cs now p (suc k) (consider all now p k c best) later
        (consider-Picks all now p k c best here h))

-- pickVictim returns no index exactly if no candidate is parked and idle for the period; the index
-- it returns is one of such a candidate, and no other such candidate was active earlier.
pub pick_victim_oldest :
    (candidates : List IdleCandidate) (now p : ℤ)
    → Picks candidates now p (length candidates) (pick_victim candidates now p)
unfolding pick_victim
pick_victim_oldest candidates now p =
    subst (λ k. Picks candidates now p k (consider_from candidates now p 0 candidates none))
      (omega arith)
      (consider_from-Picks candidates candidates now p 0 none
        (λ j. ap (get_elem? candidates) (omega arith)) (λ j d l. absurd (omega arith)))
