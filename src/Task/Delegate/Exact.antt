-- ===== src/Task/Delegate/Exact.antt =====
-- task.go: what the channel of delegateFn passes on.
use go_asynctasklib.Base.{
  true, false, none, some, ◌≡◌, Option, Bool, inl, inr, ◌⊎◌, subst, ap, refl, ◌∙◌, arith, ◌≢◌, sym,
  if_both,
}
use go_asynctasklib.Base.Errors.{Error, is_canceled, join, task, task_timeout}
use go_asynctasklib.Task.{
  Task, End, run, enter, keep_err, context_done, timed_out, returned, done, failed,
}
use go_asynctasklib.Task.Delegate.{
  leave, returns, panics, exits, Call, World, Step, Reach, Routine, Caller, new_world, begin,
  end_run, starting, calling, sending, closed, waiting, ended,
}
use go_asynctasklib.Task.Delegate as Delegate

-- Whether run has not received from the channel.
abbrev pub is_open : Caller → Bool
is_open (ended (returned r)) = false
is_open c = true

-- What is sent is what the function has left, or the error of a context that ended before the call.
FromCall : Option Error → Option Call → Type 0
FromCall r result =
    ((own : Call) × (result ≡ some own) × (leave own ≡ sending r))
    ⊎ ((result ≡ none) × ((e : Error) × (r ≡ some e)))

abbrev Fits : Routine → Caller → Option Call → Type 0
Fits starting c result = (is_open c ≡ true) × (result ≡ none)
Fits calling c result = (is_open c ≡ true) × (result ≡ none)
Fits (sending r) c result = (is_open c ≡ true) × FromCall r result
Fits closed c result =
    ((r : Option Error) × (c ≡ ended (returned r)) × FromCall r result) ⊎ (result ≡ some exits)

abbrev after : Caller → Task → Task
after waiting t = t
after (ended e) t = keep_err (run e t)

record IsExact (t : Task) (w : World) : Type 0 where
  fits : Fits w.routine w.caller w.result
  task_after : w.task ≡ after w.caller t

begin-Fits :
    (ctx : Option Error) (c : Caller) (result : Option Call)
    → (is_open c ≡ true) × (result ≡ none)
    → Fits (begin ctx) c result
unfolding begin FromCall
begin-Fits none c result h = h
begin-Fits (some e) c result (o, n) = (o, inr (n, (e, refl)))

-- run leaves with the context or the timeout.
left-Fits :
    (x : Routine) (c : Caller) (result : Option Call)
    → is_open c ≡ true
    → Fits x waiting result
    → Fits x c result
left-Fits starting c result o (_, n) = (o, n)
left-Fits calling c result o (_, n) = (o, n)
left-Fits (sending r) c result o (_, n) = (o, n)
left-Fits closed c result o (inl (r, e, n)) = absurd (ground (arith, e))
left-Fits closed c result o (inr e) = inr e

-- The function ends.
call-Fits : (own : Call) (c : Caller) → is_open c ≡ true → Fits (leave own) c (some own)
unfolding leave FromCall
call-Fits (returns e) c o = (o, inl (returns e, refl, refl))
call-Fits (panics n) c o = (o, inl (panics n, refl, refl))
call-Fits exits c o = inr refl

at_routine :
    (t : Task) (w : World) (x : Routine) → w.routine ≡ x → IsExact t w → Fits x w.caller w.result
at_routine t w x e h = subst (λ y. Fits y w.caller w.result) e h.fits

ends :
    (t : Task) (w : World) (e : End)
    → w.caller ≡ waiting
    → IsExact t w
    → keep_err (run e w.task) ≡ keep_err (run e t)
ends t w e p h = ap (λ x. keep_err (run e x)) (h.task_after ∙ ap (λ c. after c t) p)

Step-IsExact : (t : Task) {w u : World} → Step w u → IsExact t w → IsExact t u
unfolding end_run FromCall
Step-IsExact t {w} (Delegate.begins e) h = record {
  fits = begin-Fits w.ctx w.caller w.result (at_routine t w starting e h);
  task_after = h.task_after;
}
Step-IsExact t {w} (Delegate.fn_ends own e) h = record {
  fits = call-Fits _ w.caller (at_routine t w calling e h).0;
  task_after = h.task_after;
}
Step-IsExact t {w} (Delegate.meets r e c) h = record {
  fits = inl (r, refl, (at_routine t w (sending r) e h).1);
  task_after = ends t w (returned r) c h;
}
Step-IsExact t {w} (Delegate.reads_closed e c) h = record {
  fits =
      subst (λ x. Fits x (ended (returned none)) w.result) (sym e)
        (elim (at_routine t w closed e h) [
          | inl (r, q, _) ↦ absurd (ground (arith, q, c))
          | inr q ↦ inr q
        ]);
  task_after = ends t w (returned none) c h;
}
Step-IsExact t {w} (Delegate.context_ends e n) h = record {
  fits = h.fits;
  task_after = h.task_after;
}
Step-IsExact t {w} (Delegate.sees_context e n c) h = record {
  fits = left-Fits w.routine _ w.result refl (subst (λ x. Fits w.routine x w.result) c h.fits);
  task_after = ends t w (context_done e) c h;
}
Step-IsExact t {w} (Delegate.times_out c) h = record {
  fits = left-Fits w.routine _ w.result refl (subst (λ x. Fits w.routine x w.result) c h.fits);
  task_after = ends t w (timed_out w.ctx) c h;
}

Reach-IsExact : (t : Task) {w u : World} → Reach w u → IsExact t w → IsExact t u
Reach-IsExact t Delegate.start h = h
Reach-IsExact t (Delegate.later r x) h = Step-IsExact t x (Reach-IsExact t r h)

new_world-IsExact : (t : Task) (ctx : Option Error) → IsExact t (new_world t ctx)
new_world-IsExact t ctx = record { fits = (refl, refl); task_after = refl }

kept_state : (r : Option Error) (t : Task) → (keep_err (t, r)).state ≡ t.state
unfolding keep_err
kept_state none t = refl
kept_state (some e) t = refl

ends_done : (e : End) (t : Task) → (keep_err (run e t)).state ≡ done → e ≡ returned none
unfolding run keep_err enter
ends_done (context_done x) t d = absurd (ground (arith, d))
ends_done (timed_out (some x)) t d = absurd (ground (arith, d))
ends_done (timed_out none) t d =
    absurd
      (ground (arith, d, kept_state (join (some (task task_timeout)) t.last_err) (enter failed t)))
ends_done (returned none) t d = refl
ends_done (returned (some x)) t d = absurd (
    if_both (λ (p : Task × Option Error). (keep_err p).state ≢ done) (is_canceled x) _ _
      (λ q y. ground (arith, y)) (λ q y. ground (arith, y)) d)

abbrev got : Caller → Option Error
got (ended (returned r)) = r
got c = none

-- The function has returned nil, or has ended its goroutine.
abbrev pub EndsNil : Option Call → Type 0
EndsNil result = (result ≡ some (returns none)) ⊎ (result ≡ some exits)

leave_nil : (own : Call) → leave own ≡ sending none → own ≡ returns none
unfolding leave
leave_nil (returns none) e = refl
leave_nil (returns (some x)) e = absurd (ground (arith, e))
leave_nil (panics n) e = absurd (ground (arith, e))
leave_nil exits e = absurd (ground (arith, e))

nil_received :
    (x : Routine) (result : Option Call)
    → Fits x (ended (returned none)) result
    → EndsNil result × (x ≡ closed)
unfolding FromCall
nil_received starting result (o, n) = absurd (ground (arith, o))
nil_received calling result (o, n) = absurd (ground (arith, o))
nil_received (sending r) result (o, n) = absurd (ground (arith, o))
nil_received closed result (inl (r, e, inl (own, n, q))) =
    (inl (n ∙ ap some (leave_nil own (q ∙ ap sending (sym (ap got e))))), refl)
nil_received closed result (inl (r, e, inr (n, (x, q)))) = absurd (ground (arith, ap got e ∙ q))
nil_received closed result (inr e) = (inr e, refl)

finished_lem :
    (x : Routine) (c : Caller) (result : Option Call) (t : Task)
    → t.state ≢ done
    → Fits x c result
    → (after c t).state ≡ done
    → EndsNil result × (x ≡ closed)
finished_lem x waiting result t n h d = absurd (n d)
finished_lem x (ended e) result t n h d =
    nil_received x result (subst (λ y. Fits x (ended y) result) (ends_done e t d) h)

-- Whatever the order in which run, its goroutine, the context and the timeout go on, a task that
-- was not DONE becomes so only where its function was called and returned nil, or ended its
-- goroutine by runtime.Goexit, and the goroutine has closed the channel: not by a panic, nor by a
-- function that is not set, a context or a timeout.
pub done_fn_left :
    (t : Task) (ctx : Option Error) (w : World)
    → t.state ≢ done
    → Reach (new_world t ctx) w
    → w.task.state ≡ done
    → EndsNil w.result × (w.routine ≡ closed)
done_fn_left t ctx w n r d =
    let h = Reach-IsExact t r (new_world-IsExact t ctx) in
    finished_lem w.routine w.caller w.result t n h.fits
      (ap (λ (x : Task). x.state) (sym h.task_after) ∙ d)

-- The goroutine goes on, or its function has ended it.
abbrev pub Unclosed : Routine → Option Call → Type 0
Unclosed x result = (x ≢ closed) ⊎ (result ≡ some exits)

open-Unclosed :
    (x : Routine) (c : Caller) (result : Option Call)
    → is_open c ≡ true
    → Fits x c result
    → Unclosed x result
open-Unclosed starting c result o h = inl (λ q. ground (arith, q))
open-Unclosed calling c result o h = inl (λ q. ground (arith, q))
open-Unclosed (sending r) c result o h = inl (λ q. ground (arith, q))
open-Unclosed closed c result o (inl (r, e, h)) = absurd (ground (arith, o, ap is_open e))
open-Unclosed closed c result o (inr e) = inr e

pub left-Unclosed :
    (t : Task) (ctx : Option Error) (e : End) (w : World)
    → Reach (new_world t ctx) w
    → w.caller ≡ ended e
    → is_open (ended e) ≡ true
    → Unclosed w.routine w.result
left-Unclosed t ctx e w r c o =
    let h = Reach-IsExact t r (new_world-IsExact t ctx) in
    open-Unclosed w.routine w.caller w.result (ap is_open c ∙ o) h.fits
