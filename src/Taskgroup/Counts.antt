-- ===== src/Taskgroup/Counts.antt =====
-- taskgroup.go: the counts of Stats.
use go_asynctasklib.Base.{◌∷◌, ◌∙◌, []}
use go_asynctasklib.Task.{canceled}
use go_asynctasklib.Taskgroup.{Stats, tally, tally_all, stats, TaskGroup}
use go_asynctasklib.Base.{ℕ, List, ◌+◌, ◌≡◌, suc, length, arith, refl}
use go_asynctasklib.Task.{State, created, pending, started, done, failed}

abbrev pub sum : Stats → ℕ
sum s =
    s.created_count + s.pending_count + s.started_count + s.done_count + s.failed_count
    + s.canceled_count

tally-sum :
    (t : State) (s : Stats) → (sum (tally t s) ≡ suc (sum s)) × ((tally t s).total ≡ s.total)
unfolding tally
tally-sum created s = (omega arith, refl)
tally-sum pending s = (omega arith, refl)
tally-sum started s = (omega arith, refl)
tally-sum done s = (omega arith, refl)
tally-sum failed s = (omega arith, refl)
tally-sum canceled s = (omega arith, refl)

tally_all-sum :
    (ts : List State) (s : Stats)
    → (sum (tally_all ts s) ≡ length ts + sum s) × ((tally_all ts s).total ≡ s.total)
unfolding tally_all
tally_all-sum [] s = (omega arith, refl)
tally_all-sum (t ∷ ts) s =
    let (one, same) = tally-sum t s in
    let (all, kept) = tally_all-sum ts (tally t s) in (omega arith, kept ∙ same)

-- The six counts of Stats add up to its total, which is the number of tasks.
pub stats-sum :
    (g : TaskGroup) → (sum (stats g) ≡ (stats g).total) × ((stats g).total ≡ length g.tasks)
unfolding stats
stats-sum g = let (all, kept) = tally_all-sum g.tasks _ in (omega arith, kept)
