-- ===== src/Taskqueue/Queue/Claims.antt =====
-- A claim is settled exactly once.
use go_asynctasklib.Base.{◌≡◌, refl, true, Option, some, arith}
use go_asynctasklib.Base.Int.{ℤ}
use go_asynctasklib.Base.Errors.{Error, queue, claim_settled}
use go_asynctasklib.Taskqueue.Backend.{Backend}
use go_asynctasklib.Taskqueue.DeadLetter.{DeadLetter}
use go_asynctasklib.Taskqueue.Queue.{Queue, Claim, ack, nack}

module _ (b : Backend) (d : DeadLetter) where
  -- Both Ack and Nack refuse the claim `c`, on any queue state and under any context, and change
  -- nothing.
  abbrev pub Refuses : Claim b d → Type 0
  Refuses c =
      (ctx nack_ctx : Option Error) (now : ℤ) (reason : Option Error) (q : Queue b d)
      → (ack b d ctx c q ≡ some (c, q, some (queue claim_settled)))
        × (nack b d ctx nack_ctx now reason c q ≡ some (c, q, some (queue claim_settled)))

  settled-Refuses : (c : Claim b d) → c.settled ≡ true → Refuses c
  unfolding ack nack
  settled-Refuses c e ctx nack_ctx now reason q = rw (e, ack, nack) (refl, refl)

  ack-settled :
      (ctx : Option Error) (c c' : Claim b d) (q q' : Queue b d) (e : Option Error)
      → ack b d ctx c q ≡ some (c', q', e)
      → c'.settled ≡ true
  unfolding ack
  ack-settled ctx c c' q q' e h = ground arith

  pub nack-settled :
      (ctx nack_ctx : Option Error) (now : ℤ) (reason : Option Error) (c c' : Claim b d)
      (q q' : Queue b d) (e : Option Error)
      → nack b d ctx nack_ctx now reason c q ≡ some (c', q', e)
      → c'.settled ≡ true
  unfolding nack
  nack-settled ctx nack_ctx now reason c c' q q' e h = ground arith

  -- After an Ack of a claim, whatever it returned, every later Ack or Nack of it is refused.
  pub ack_once :
      (ctx : Option Error) (c c' : Claim b d) (q q' : Queue b d) (e : Option Error)
      → ack b d ctx c q ≡ some (c', q', e)
      → Refuses c'
  ack_once ctx c c' q q' e h = settled-Refuses c' (ack-settled ctx c c' q q' e h)

  -- After a Nack of a claim, whatever it returned, every later Ack or Nack of it is refused.
  pub nack_once :
      (ctx nack_ctx : Option Error) (now : ℤ) (reason : Option Error) (c c' : Claim b d)
      (q q' : Queue b d) (e : Option Error)
      → nack b d ctx nack_ctx now reason c q ≡ some (c', q', e)
      → Refuses c'
  nack_once ctx nack_ctx now reason c c' q q' e h =
      settled-Refuses c' (nack-settled ctx nack_ctx now reason c c' q q' e h)
