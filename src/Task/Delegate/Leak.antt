-- ===== src/Task/Delegate/Leak.antt =====
-- task.go: the goroutine of delegateFn behind a run that has left.
use go_asynctasklib.Base.{true, none, some, ◌≡◌, Option, arith, ◌≢◌, inl, inr, refl}
use go_asynctasklib.Base.Errors.{Error}
use go_asynctasklib.Task.{Task, End}
use go_asynctasklib.Task.Delegate.{
  leave, Call, returns, panics, exits, World, Step, Reach, Routine, Caller, new_world, begin,
  end_run, starting, calling, sending, closed, waiting, ended,
}
use go_asynctasklib.Task.Delegate as Delegate
use go_asynctasklib.Task.Delegate.Exact.{is_open, left-Unclosed, Unclosed}

-- run has left by the context or the timeout, and the goroutine goes no further than its send.
record Left (e : End) (x : Routine) (w : World) : Type 0 where
  gone : w.caller ≡ ended e
  not_closed : Unclosed w.routine w.result
  stuck : (r : Option Error) → x ≡ sending r → w.routine ≡ sending r

begin-open : (ctx : Option Error) → begin ctx ≢ closed
unfolding begin
begin-open none p = ground (arith, p)
begin-open (some e) p = ground (arith, p)

leave-Unclosed : (own : Call) → Unclosed (leave own) (some own)
unfolding leave
leave-Unclosed (returns e) = inl (λ q. ground (arith, q))
leave-Unclosed (panics n) = inl (λ q. ground (arith, q))
leave-Unclosed exits = inr refl

Step-Left : (e : End) (x : Routine) {w u : World} → Step w u → Left e x w → Left e x u
unfolding end_run
Step-Left e x {w} (Delegate.begins p) h = record {
  gone = h.gone;
  not_closed = inl (begin-open w.ctx);
  stuck = λ r q. absurd (ground (arith, p, h.stuck r q));
}
Step-Left e x {w} (Delegate.fn_ends own p) h = record {
  gone = h.gone;
  not_closed = leave-Unclosed _;
  stuck = λ r q. absurd (ground (arith, p, h.stuck r q));
}
Step-Left e x {w} (Delegate.meets r p c) h = absurd (ground (arith, c, h.gone))
Step-Left e x {w} (Delegate.reads_closed p c) h = absurd (ground (arith, c, h.gone))
Step-Left e x {w} (Delegate.context_ends p n) h = record {
  gone = h.gone;
  not_closed = h.not_closed;
  stuck = h.stuck;
}
Step-Left e x {w} (Delegate.sees_context p n c) h = absurd (ground (arith, c, h.gone))
Step-Left e x {w} (Delegate.times_out c) h = absurd (ground (arith, c, h.gone))

Reach-Left : (e : End) (x : Routine) {w u : World} → Reach w u → Left e x w → Left e x u
Reach-Left e x Delegate.start h = h
Reach-Left e x (Delegate.later r y) h = Step-Left e x y (Reach-Left e x r h)

-- Once run has returned because of the context or the timeout, its goroutine never comes to the
-- close of the channel, whatever happens after, unless its function ends it by runtime.Goexit; and
-- where it stands at a send it stays there for ever.
pub left_run-leaks :
    (t : Task) (ctx : Option Error) (e : End) (w u : World)
    → Reach (new_world t ctx) w
    → w.caller ≡ ended e
    → is_open (ended e) ≡ true
    → Reach w u
    → Unclosed u.routine u.result
      × ((r : Option Error) → w.routine ≡ sending r → u.routine ≡ sending r)
left_run-leaks t ctx e w u r c o r' =
    let left =
      Reach-Left e w.routine r'
        (record { gone = c; not_closed = left-Unclosed t ctx e w r c o; stuck = λ r q. q }) in
    (left.not_closed, left.stuck)
