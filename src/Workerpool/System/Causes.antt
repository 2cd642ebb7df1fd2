-- ===== src/Workerpool/System/Causes.antt =====
-- claims.go: the causes of the errors that submit has returned.
use go_asynctasklib.Workerpool.Claims.Dispatch.{Explains}
use go_asynctasklib.Workerpool.Claims.{Round, Outcome, delivered, failed}
use go_asynctasklib.Base.{◌∷◌, [], List, ◌++◌, ℕ}
use go_asynctasklib.Base.Errors.{Error}

module _ {J : Type 0} where
  -- Each failed submit saw a round with the cause of its error.
  abbrev pub AllCaused : List (J × Outcome) → Type 0
  AllCaused [] = Unit {0}
  AllCaused ((t, delivered w) ∷ hs) = AllCaused hs
  AllCaused ((t, failed e) ∷ hs) = ((r : Round) × Explains r (failed e)) × AllCaused hs

  pub delivered-AllCaused :
      (hs : List (J × Outcome)) (t : J) (w : ℕ)
      → AllCaused hs
      → AllCaused (hs ++ ((t, delivered w) ∷ []))
  delivered-AllCaused [] t w h = tt
  delivered-AllCaused ((x, delivered v) ∷ hs) t w h = delivered-AllCaused hs t w h
  delivered-AllCaused ((x, failed e) ∷ hs) t w (c, h) = (c, delivered-AllCaused hs t w h)

  pub failed-AllCaused :
      (hs : List (J × Outcome)) (t : J) (e : Error) (r : Round)
      → Explains r (failed e)
      → AllCaused hs
      → AllCaused (hs ++ ((t, failed e) ∷ []))
  failed-AllCaused [] t e r x h = ((r, x), tt)
  failed-AllCaused ((y, delivered v) ∷ hs) t e r x h = failed-AllCaused hs t e r x h
  failed-AllCaused ((y, failed f) ∷ hs) t e r x (c, h) = (c, failed-AllCaused hs t e r x h)
