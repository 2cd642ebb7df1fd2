-- ===== src/Workerpool/Claims/Members.antt =====
-- claims.go: the subscribers stay within the size.
use go_asynctasklib.Base.Table
use go_asynctasklib.Base.{◌∷◌, suc, ◌≤◌, ◌∙◌, ap}
use go_asynctasklib.Base.{
  Option, List, ℕ, length, some, [], Bool-cases, Option-cases, ◌≡◌, inl, inr, refl, arith, none,
}
use go_asynctasklib.Workerpool.Claims.{
  Claims, subscribe, unsubscribe, new_claims, apply_defaults, ClaimsConfig,
}
use go_asynctasklib.Base.Int.{pos, ◌≤ℤ◌, leb_ℤ}
use go_asynctasklib.Base.Errors.{ok}
use go_asynctasklib.Workerpool.Ticks.{present, Present}

-- A call of Subscribe or Unsubscribe.
pub data Call : Type 0 where
  joins leaves : Option ℕ → Call

unfoldable pub apply_call : Call → Claims → Claims
apply_call (joins w) c = (subscribe w c).0
apply_call (leaves w) c = (unsubscribe w c).0

unfoldable pub apply_calls : List Call → Claims → Claims
apply_calls [] c = c
apply_calls (x ∷ xs) c = apply_calls xs (apply_call x c)

-- No ID twice, and no more of them than the size.
abbrev pub IsWithin : Claims → Type 0
IsWithin c = Table.Distinct c.subscribers × (pos (length c.subscribers) ≤ℤ c.cfg.size)

-- The size of a set after an insert, by what a lookup of the ID found.
abbrev sizes : List (ℕ × Present) → Option Present → ℕ
sizes xs none = suc (length xs)
sizes xs (some _) = length xs

insert_at_most :
    (w : ℕ) (xs : List (ℕ × Present)) → length (Table.insert w present xs) ≤ suc (length xs)
insert_at_most w xs = elim (Option-cases (Table.lookup w xs)) [
  | inl e ↦ omega (arith, Table.length-insert w present xs ∙ ap (sizes xs) e)
  | inr (v, e) ↦ omega (arith, Table.length-insert w present xs ∙ ap (sizes xs) e)
]

subscribe-IsWithin : (w : Option ℕ) (c : Claims) → IsWithin c → IsWithin (subscribe w c).0
unfolding subscribe
subscribe-IsWithin none c h = h
subscribe-IsWithin (some w) c (d, l) =
    elim (Bool-cases (leb_ℤ c.cfg.size (pos (length c.subscribers)))) [
      | inl e ↦ rw (subscribe, e) (d, l)
      | inr e ↦
          rw (subscribe, e)
            (
              Table.insert-Distinct w present c.subscribers d,
              ground (arith, insert_at_most w c.subscribers),
            )
    ]

unsubscribe-IsWithin : (w : Option ℕ) (c : Claims) → IsWithin c → IsWithin (unsubscribe w c).0
unfolding unsubscribe
unsubscribe-IsWithin none c h = h
unsubscribe-IsWithin (some w) c (d, l) = elim (Option-cases (Table.lookup w c.subscribers)) [
  | inl e ↦ rw (unsubscribe, e) (d, l)
  | inr (present, e) ↦
      let size = Table.length-delete w present c.subscribers d e in
      rw (unsubscribe, e) (Table.delete-Distinct w c.subscribers d, omega arith)
]

apply_calls-IsWithin : (xs : List Call) (c : Claims) → IsWithin c → IsWithin (apply_calls xs c)
unfolding apply_calls apply_call
apply_calls-IsWithin [] c h = h
apply_calls-IsWithin (joins w ∷ xs) c h =
    apply_calls-IsWithin xs ((subscribe w c).0) (subscribe-IsWithin w c h)
apply_calls-IsWithin (leaves w ∷ xs) c h =
    apply_calls-IsWithin xs ((unsubscribe w c).0) (unsubscribe-IsWithin w c h)

-- After any calls of Subscribe and Unsubscribe on a new dispatcher, nil workers and repeated IDs
-- included, no ID stands twice among the subscribers and there are at most Size of them.
pub new_claims-IsWithin :
    (cpus : ℕ) (cfg : ClaimsConfig) (xs : List Call)
    → (c : Claims) × (new_claims cpus (some cfg) ≡ ok c) × IsWithin (apply_calls xs c)
unfolding new_claims apply_defaults
new_claims-IsWithin cpus cfg xs = (_, refl, apply_calls-IsWithin xs _ (tt, ground arith))
