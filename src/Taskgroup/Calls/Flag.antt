-- ===== src/Taskgroup/Calls/Flag.antt =====
-- taskgroup.go: the flag that Stop sets.
use go_asynctasklib.Base.{true, ℕ, ◌≡◌, inl, inr, ◌⊎◌, ◌≤◌, arith, refl, ◌+◌, ◌≢◌}
use go_asynctasklib.Taskgroup.Calls.{
  Group, Entry, Step, Reach, Stop, put, cancel_in_progress, new_group, not_called, returned,
  canceling,
}
use go_asynctasklib.Taskgroup.Calls as Calls

-- Behind the flag no call of Submit passes its test.
pub record IsClosed (m : ℕ) (g : Group) : Type 0 where
  pub flag : g.stopped ≡ true
  pub room : g.submitted + g.admitted ≤ m

Step-IsClosed : (m : ℕ) {g h : Group} → Step g h → IsClosed m g → IsClosed m h
Step-IsClosed m (Calls.admits o) c = absurd (ground (arith, o, c.flag))
Step-IsClosed m (Calls.gives_up o) c = record { flag = c.flag; room = omega (arith, c.room) }
Step-IsClosed m (Calls.appends s f o r) c = record {
  flag = c.flag;
  room = omega (arith, o, c.room);
}
Step-IsClosed m (Calls.spawns k l) c = record { flag = c.flag; room = c.room }
Step-IsClosed m (Calls.proceeds k s f l r u) c = record { flag = c.flag; room = c.room }
Step-IsClosed m (Calls.releases k l s f) c = record { flag = c.flag; room = c.room }
Step-IsClosed m (Calls.stop_begins e) c = record { flag = c.flag; room = c.room }
Step-IsClosed m (Calls.stop_cancels k n e l) c = record { flag = c.flag; room = c.room }
Step-IsClosed m (Calls.stop_ends n e) c = record { flag = refl; room = c.room }
Step-IsClosed m (Calls.wait_begins e) c = record { flag = c.flag; room = c.room }
Step-IsClosed m (Calls.wait_sees_zero n b e z) c = record { flag = c.flag; room = c.room }
Step-IsClosed m (Calls.wait_ends n e z) c = record { flag = c.flag; room = c.room }

pub Reach-IsClosed : (m : ℕ) {g h : Group} → Reach g h → IsClosed m g → IsClosed m h
Reach-IsClosed m Calls.start c = c
Reach-IsClosed m (Calls.later r x) c = Step-IsClosed m x (Reach-IsClosed m r c)

-- A Stop that has returned has set the flag, and nothing takes it back.
abbrev pub Flagged : Group → Type 0
Flagged g = (g.stopped ≡ true) ⊎ (g.stop ≢ returned)

Step-Flagged : {g h : Group} → Step g h → Flagged g → Flagged h
Step-Flagged (Calls.admits o) c = c
Step-Flagged (Calls.gives_up o) c = c
Step-Flagged (Calls.appends s f o r) c = c
Step-Flagged (Calls.spawns k l) c = c
Step-Flagged (Calls.proceeds k s f l r u) c = c
Step-Flagged (Calls.releases k l s f) c = c
Step-Flagged (Calls.stop_begins e) c = inr (λ p. ground (arith, p))
Step-Flagged (Calls.stop_cancels k n e l) c = inr (λ p. ground (arith, p))
Step-Flagged (Calls.stop_ends n e) c = inl refl
Step-Flagged (Calls.wait_begins e) c = c
Step-Flagged (Calls.wait_sees_zero n b e z) c = c
Step-Flagged (Calls.wait_ends n e z) c = c

pub Reach-Flagged : {g h : Group} → Reach g h → Flagged g → Flagged h
Reach-Flagged Calls.start c = c
Reach-Flagged (Calls.later r x) c = Step-Flagged x (Reach-Flagged r c)

pub flag_set : (g : Group) → g.stop ≡ returned → Flagged g → g.stopped ≡ true
flag_set g e (inl p) = p
flag_set g e (inr p) = absurd (p e)
