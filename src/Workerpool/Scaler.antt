-- ===== src/Workerpool/Scaler.antt =====
-- pkg/workerpool/scaler.go: the decision that the autoscaler takes at each tick.
use go_asynctasklib.Base.{
  Bool, true, false, ◌≡◌, ◌&&◌, if◌then◌else◌, arith, Bool-cases, refl, inl, inr,
}
use go_asynctasklib.Base.Int.{
  ℤ, pos, ◌+ℤ◌, ◌-ℤ◌, ◌≤ℤ◌, ◌<ℤ◌, ltb_ℤ, leb_ℤ, eqb_ℤ, int_laws, -ℤ_parts, eqb_ℤ_eq, +ℤ_parts,
}
use go_asynctasklib.Workerpool.Config.{AutoScaleConfig, IsValid}

pub record Snapshot : Type 0 where
  pub joined : ℤ
  pub idle : ℤ
  pub backlog : ℤ
  pub now : ℤ
  pub last_up : ℤ
  pub last_down : ℤ

pub data Decision : Type 0 where
  hold up down : Decision

unfoldable pub should_scale_up : Snapshot → AutoScaleConfig → Bool
should_scale_up s cfg =
    ltb_ℤ s.joined cfg.max_size
    && (ltb_ℤ (pos 0) s.backlog && leb_ℤ s.idle cfg.idle_headroom)
    && leb_ℤ cfg.scale_up_cooldown (s.now -ℤ s.last_up)

unfoldable pub should_scale_down : Snapshot → AutoScaleConfig → Bool
should_scale_down s cfg =
    ltb_ℤ cfg.min_size s.joined
    && (eqb_ℤ s.backlog (pos 0) && ltb_ℤ cfg.idle_headroom s.idle)
    && leb_ℤ cfg.scale_down_cooldown (s.now -ℤ s.last_down)

unfoldable pub scale_up_step : Snapshot → AutoScaleConfig → ℤ
scale_up_step s cfg =
    if ltb_ℤ (cfg.max_size -ℤ s.joined) cfg.scale_up_step
    then cfg.max_size -ℤ s.joined
    else cfg.scale_up_step

unfoldable pub decide : Snapshot → AutoScaleConfig → Decision × ℤ
decide s cfg =
    if should_scale_up s cfg
    then (up, scale_up_step s cfg)
    else (if should_scale_down s cfg then (down, pos 0) else (hold, pos 0))

-- What each action promises of the number of joined workers and of the load.
abbrev pub Justified : Snapshot → AutoScaleConfig → Decision × ℤ → Type 0
Justified s cfg (hold, n) = n ≡ pos 0
Justified s cfg (up, n) =
    (pos 0 <ℤ n)
    × (n ≤ℤ cfg.scale_up_step)
    × (s.joined +ℤ n ≤ℤ cfg.max_size)
    × (pos 0 <ℤ s.backlog)
    × (s.idle ≤ℤ cfg.idle_headroom)
    × (s.last_up +ℤ cfg.scale_up_cooldown ≤ℤ s.now)
Justified s cfg (down, n) =
    (n ≡ pos 0)
    × (cfg.min_size <ℤ s.joined)
    × (s.backlog ≡ pos 0)
    × (cfg.idle_headroom <ℤ s.idle)
    × (s.last_down +ℤ cfg.scale_down_cooldown ≤ℤ s.now)

-- The three parts of a condition.
all_true :
    (a b c d : Bool)
    → (a && (b && c) && d) ≡ true
    → (a ≡ true) × (b ≡ true) × (c ≡ true) × (d ≡ true)
all_true true true true true e = (refl, refl, refl, refl)
all_true true true true false e = ground arith
all_true true true false d e = ground arith
all_true true false c d e = ground arith
all_true false b c d e = ground arith

step_bounds :
    (s : Snapshot) (cfg : AutoScaleConfig)
    → IsValid cfg
    → s.joined <ℤ cfg.max_size
    → (pos 0 <ℤ scale_up_step s cfg)
      × (scale_up_step s cfg ≤ℤ cfg.scale_up_step)
      × (s.joined +ℤ scale_up_step s cfg ≤ℤ cfg.max_size)
unfolding scale_up_step
step_bounds s cfg v h =
    let room = -ℤ_parts cfg.max_size s.joined in
    let all = +ℤ_parts s.joined (cfg.max_size -ℤ s.joined) in
    let some_of = +ℤ_parts s.joined cfg.scale_up_step in ground (arith, room, all, some_of, v.step)

cooled : (now last cooldown : ℤ) → cooldown ≤ℤ now -ℤ last → last +ℤ cooldown ≤ℤ now
cooled now last cooldown h = omega int_laws

up-Justified :
    (s : Snapshot) (cfg : AutoScaleConfig)
    → IsValid cfg
    → should_scale_up s cfg ≡ true
    → Justified s cfg (up, scale_up_step s cfg)
unfolding should_scale_up
up-Justified s cfg v e =
    let (below, queued, few, cool) =
      all_true (ltb_ℤ s.joined cfg.max_size) (ltb_ℤ (pos 0) s.backlog)
        (leb_ℤ s.idle cfg.idle_headroom) (leb_ℤ cfg.scale_up_cooldown (s.now -ℤ s.last_up)) e in
    let (positive, room, top) = step_bounds s cfg v (ground arith) in
    (
      positive,
      room,
      top,
      ground arith,
      ground arith,
      cooled s.now s.last_up cfg.scale_up_cooldown (ground arith),
    )

down-Justified :
    (s : Snapshot) (cfg : AutoScaleConfig)
    → should_scale_down s cfg ≡ true
    → Justified s cfg (down, pos 0)
unfolding should_scale_down
down-Justified s cfg e =
    let (above, queued, spare, cool) =
      all_true (ltb_ℤ cfg.min_size s.joined) (eqb_ℤ s.backlog (pos 0))
        (ltb_ℤ cfg.idle_headroom s.idle) (leb_ℤ cfg.scale_down_cooldown (s.now -ℤ s.last_down)) e in
    (
      refl,
      ground arith,
      eqb_ℤ_eq s.backlog (pos 0) queued,
      ground arith,
      cooled s.now s.last_down cfg.scale_down_cooldown (ground arith),
    )

-- With a valid configuration every decision is justified: up adds at least one worker, at most the
-- configured step and never beyond the ceiling, with work queued, no idle workers beyond the
-- headroom and the cooldown over; down needs more workers than the floor, an empty backlog, idle
-- workers beyond the headroom and its own cooldown over; hold and down add none.
pub decide-Justified :
    (s : Snapshot) (cfg : AutoScaleConfig) → IsValid cfg → Justified s cfg (decide s cfg)
unfolding decide
decide-Justified s cfg v = elim (Bool-cases (should_scale_up s cfg)) [
  | inl e ↦ rw e (up-Justified s cfg v e)
  | inr e ↦ elim (Bool-cases (should_scale_down s cfg)) [
    | inl f ↦ rw (e, f) (down-Justified s cfg f)
    | inr f ↦ rw (e, f) refl
  ]
]
