-- ===== src/Taskqueue/Queue/Stream.antt =====
-- queue.go: the goroutine of Stream, which feeds a yielder with claims.
use go_asynctasklib.Taskqueue.Queue.{Queue, Claim, nack}
use go_asynctasklib.Taskqueue.Queue.Consume.{Round, dequeue}
use go_asynctasklib.Taskqueue.Queue.Claims.{nack-settled}
use go_asynctasklib.Taskqueue.Backend.{Backend}
use go_asynctasklib.Taskqueue.DeadLetter.{DeadLetter}
use go_asynctasklib.Base.{
  [], ◌∷◌, none, some, true, false, ◌≡◌, Bool, List, ℕ, Option, ◌++◌, Bool-cases, ap, arith,
  if◌then◌else◌, length, ◌∙◌, inl, ◌<◌, ◌≤◌, sym, inr, refl, length-append,
}
use go_asynctasklib.Base.Errors.{ok, err, Result, Error, queue, queue_closed}
use go_asynctasklib.Base.Int.{ℤ, ltb_ℤ, pos, pos_part}
use mathlib.Core.List.{append_assoc, append-nil}

never_none : {A : Type 0} (x : A) → some x ≡ none → ⊥
never_none x e = cc

both_ends : (x : Bool) → x ≡ false → x ≡ true → ⊥
both_ends x e f = absurd cc

module _ (b : Backend) (d : DeadLetter) where
  -- The guard of Stream, then the channel, whose make panics on a negative buffer.
  unfoldable pub open_feed : ℤ → Queue b d → Option (Result ℕ)
  open_feed buffer q =
      if q.closed
      then some (err (queue queue_closed))
      else (if ltb_ℤ buffer (pos 0) then none else some (ok (pos_part buffer)))

  -- The call of Nack under the ended context: the claim and the queue, before and after, and the
  -- answer, which Stream ignores.
  pub record Nacked : Type 0 where
    pub claim : Claim b d
    pub ctx : Error
    pub now : ℤ
    pub before : Queue b d
    pub settled_claim : Claim b d
    pub after : Queue b d
    pub answer : Option Error

  -- The queue with the feed, the claim that waits to be sent, the claims that the yielder has taken,
  -- the call of Nack if there was one, and every claim that was dequeued.
  pub record World : Type 0 where
    pub queue : Queue b d
    pub feed : List (Claim b d)
    pub ended : Bool
    pub holding : Option (Claim b d)
    pub taken : List (Claim b d)
    pub nacked : Option Nacked
    pub dequeued : List (Claim b d)

  -- One action of the goroutine, of its yielder, or of others on the queue.
  pub data Step (capacity : ℕ) (timeout : ℤ) (w : World) : World → Type 0 where
    others : (q : Queue b d) → Step capacity timeout w (record w { queue = q })
    dequeues :
        (now : ℤ) (rounds : List (Round b d)) (q : Queue b d) (c : Claim b d)
        → w.ended ≡ false
        → w.holding ≡ none
        → dequeue b d now timeout rounds w.queue ≡ some (q, ok c)
        → Step capacity timeout w
            (record w { queue = q; holding = some c; dequeued = w.dequeued ++ (c ∷ []) })
    fails :
        (now : ℤ) (rounds : List (Round b d)) (q : Queue b d) (e : Error)
        → w.ended ≡ false
        → w.holding ≡ none
        → dequeue b d now timeout rounds w.queue ≡ some (q, err e)
        → Step capacity timeout w (record w { queue = q; ended = true })
    sends :
        (c : Claim b d)
        → w.holding ≡ some c
        → length w.feed < capacity
        → Step capacity timeout w (record w { feed = w.feed ++ (c ∷ []); holding = none })
    passes :
        (c : Claim b d)
        → w.holding ≡ some c
        → w.feed ≡ []
        → Step capacity timeout w (record w { taken = w.taken ++ (c ∷ []); holding = none })
    nacks :
        (ctx : Error) (now : ℤ) (c c2 : Claim b d) (q : Queue b d) (e : Option Error)
        → w.holding ≡ some c
        → nack b d (some ctx) (some ctx) now (some ctx) c w.queue ≡ some (c2, q, e)
        → Step capacity timeout w (record w {
          queue = q;
          holding = none;
          nacked = some (record {
            claim = c;
            ctx = ctx;
            now = now;
            before = w.queue;
            settled_claim = c2;
            after = q;
            answer = e;
          });
          ended = true;
        })
    takes :
        (c : Claim b d) (cs : List (Claim b d))
        → w.feed ≡ c ∷ cs
        → Step capacity timeout w (record w { feed = cs; taken = w.taken ++ (c ∷ []) })

  abbrev held : Option (Claim b d) → List (Claim b d)
  held none = []
  held (some c) = c ∷ []

  abbrev refused : Option Nacked → List (Claim b d)
  refused none = []
  refused (some x) = x.claim ∷ []

  -- Nack was called for the claim under the ended context, and has marked the claim as settled.
  pub record WasNacked (x : Nacked) : Type 0 where
    pub called :
        nack b d (some x.ctx) (some x.ctx) x.now (some x.ctx) x.claim x.before
        ≡ some (x.settled_claim, x.after, x.answer)
    pub marked : x.settled_claim.settled ≡ true

  abbrev pub NackedIf : Option Nacked → Type 0
  NackedIf none = Unit {0}
  NackedIf (some x) = WasNacked x

  -- Every claim that was dequeued is accounted for, in order.
  pub record IsAccounted (capacity : ℕ) (w : World) : Type 0 where
    pub order : w.dequeued ≡ w.taken ++ (w.feed ++ (held w.holding ++ refused w.nacked))
    pub open_kept : w.ended ≡ false → w.nacked ≡ none
    pub closed_empty : w.ended ≡ true → w.holding ≡ none
    pub fits : length w.feed ≤ capacity
    pub was_nacked : NackedIf w.nacked

  -- The order with the fields that a step reads.
  order_at :
      (n : ℕ) (w : World) (f : List (Claim b d)) (h : Option (Claim b d)) (g : Option Nacked)
      → w.feed ≡ f
      → w.holding ≡ h
      → w.nacked ≡ g
      → IsAccounted n w
      → w.dequeued ≡ w.taken ++ (f ++ (held h ++ refused g))
  order_at n w f h g p q r i =
      i.order
      ∙ ap (λ x. w.taken ++ (x ++ (held w.holding ++ refused w.nacked))) p
      ∙ ap (λ x. w.taken ++ (f ++ (held x ++ refused w.nacked))) q
      ∙ ap (λ x. w.taken ++ (f ++ (held h ++ refused x))) r

  still_open :
      (n : ℕ) (w : World) (c : Claim b d) → w.holding ≡ some c → IsAccounted n w → w.ended ≡ false
  still_open n w c e i = elim (Bool-cases w.ended) [
    | inl t ↦ absurd (never_none c (sym e ∙ i.closed_empty t))
    | inr f ↦ f
  ]

  Step-IsAccounted :
      (n : ℕ) (timeout : ℤ) {w u : World} → Step n timeout w u → IsAccounted n w → IsAccounted n u
  Step-IsAccounted n timeout (others q) i = record {
    order = i.order;
    open_kept = i.open_kept;
    closed_empty = i.closed_empty;
    fits = i.fits;
    was_nacked = i.was_nacked;
  }
  Step-IsAccounted n timeout {w} (dequeues now rounds q c o e s) i = record {
    order =
        ap (λ xs. xs ++ (c ∷ [])) (order_at n w w.feed none none refl e (i.open_kept o) i)
        ∙ append_assoc w.taken (w.feed ++ []) (c ∷ [])
        ∙ ap (λ xs. w.taken ++ (xs ++ (c ∷ []))) (append-nil w.feed)
        ∙ ap (λ g. w.taken ++ (w.feed ++ (c ∷ refused g))) (sym (i.open_kept o));
    open_kept = i.open_kept;
    closed_empty = λ t. absurd (both_ends w.ended o t);
    fits = i.fits;
    was_nacked = i.was_nacked;
  }
  Step-IsAccounted n timeout {w} (fails now rounds q x o e s) i = record {
    order = i.order;
    open_kept = λ f. i.open_kept o;
    closed_empty = λ _. e;
    fits = i.fits;
    was_nacked = i.was_nacked;
  }
  Step-IsAccounted n timeout {w} (sends c e room) i = record {
    order =
        order_at n w w.feed (some c) w.nacked refl e refl i
        ∙ ap (λ xs. w.taken ++ xs) (sym (append_assoc w.feed (c ∷ []) (refused w.nacked)));
    open_kept = i.open_kept;
    closed_empty = λ _. refl;
    fits = omega (arith, room, length-append w.feed (c ∷ []));
    was_nacked = i.was_nacked;
  }
  Step-IsAccounted n timeout {w} (passes c e f) i = record {
    order =
        order_at n w [] (some c) w.nacked f e refl i
        ∙ sym (append_assoc w.taken (c ∷ []) (refused w.nacked))
        ∙ ap (λ x. (w.taken ++ (c ∷ [])) ++ (x ++ refused w.nacked)) (sym f);
    open_kept = i.open_kept;
    closed_empty = λ _. refl;
    fits = i.fits;
    was_nacked = i.was_nacked;
  }
  Step-IsAccounted n timeout {w} (nacks ctx now c c2 q x e s) i = record {
    order = order_at n w w.feed (some c) none refl e (i.open_kept (still_open n w c e i)) i;
    open_kept = λ f. absurd cc;
    closed_empty = λ _. refl;
    fits = i.fits;
    was_nacked = record {
      called = s;
      marked = nack-settled b d (some ctx) (some ctx) now (some ctx) c c2 w.queue q x s;
    };
  }
  Step-IsAccounted n timeout {w} (takes c cs e) i = record {
    order =
        order_at n w (c ∷ cs) w.holding w.nacked e refl refl i
        ∙ sym (append_assoc w.taken (c ∷ []) (cs ++ (held w.holding ++ refused w.nacked)));
    open_kept = i.open_kept;
    closed_empty = i.closed_empty;
    fits = omega (arith, ap length e, i.fits);
    was_nacked = i.was_nacked;
  }

  pub data Reach (capacity : ℕ) (timeout : ℤ) (w : World) : World → Type 0 where
    start : Reach capacity timeout w w
    later :
        {u v : World}
        → Reach capacity timeout w u
        → Step capacity timeout u v
        → Reach capacity timeout w v

  Reach-IsAccounted :
      (n : ℕ) (timeout : ℤ) {w u : World} → Reach n timeout w u → IsAccounted n w → IsAccounted n u
  Reach-IsAccounted n timeout start i = i
  Reach-IsAccounted n timeout (later r s) i =
      Step-IsAccounted n timeout s (Reach-IsAccounted n timeout r i)

  abbrev pub new_stream : Queue b d → World
  new_stream q = record {
    queue = q;
    feed = [];
    ended = false;
    holding = none;
    taken = [];
    nacked = none;
    dequeued = [];
  }

  -- Over any order of the stream's goroutine, its yielder and the other callers of the queue, the
  -- claims dequeued are those that the yielder has taken, those in the feed, the one that waits to be
  -- sent and the one that Nack was called for, each once and in order. Nack is called at most once,
  -- under the ended context and behind the last dequeued claim, it marks the claim as settled
  -- whatever it answers, and it is not called while the goroutine goes on, which ends with no claim
  -- waiting. What the backend makes of a Nack under an ended context is not part of it.
  pub stream-IsAccounted :
      (n : ℕ) (timeout : ℤ) (q : Queue b d) (w : World)
      → Reach n timeout (new_stream q) w
      → IsAccounted n w
  stream-IsAccounted n timeout q w r = Reach-IsAccounted n timeout r (record {
    order = refl;
    open_kept = λ _. refl;
    closed_empty = λ _. refl;
    fits = omega arith;
    was_nacked = tt;
  })
