-- ===== src/Workerpool/JobContext.antt =====
-- pkg/workerpool/jobcontext.go: the context of a job, merged from those of the pool and of Submit.
pub mod Lookup
mod Endings
pub mod Merging
mod Tests
use go_asynctasklib.Base.{ℕ, Bool, true, false, Option, none, some, ◌==◌, if◌then◌else◌, ◌≡◌, ◌≢◌}
use go_asynctasklib.Base.Int.{ℤ, ltb_ℤ}
use go_asynctasklib.Base.Errors.{Error}

-- A value of type `any`, with its dynamic type: `!=` panics on two values of one type that has no
-- equality, such as a map.
pub data AnyValue : Type 0 where
  comparable uncomparable : ℕ → ℕ → AnyValue

-- `==` of two interface values; nil is the outer `none` of an argument, and a panic is that of the
-- result.
unfoldable pub same_value : Option AnyValue → Option AnyValue → Option Bool
same_value none none = some true
same_value none (some b) = some false
same_value (some a) none = some false
same_value (some (comparable s a)) (some (comparable t b)) = some (if s == t then a == b else false)
same_value (some (comparable s a)) (some (uncomparable t b)) = some false
same_value (some (uncomparable s a)) (some (comparable t b)) = some false
same_value (some (uncomparable s a)) (some (uncomparable t b)) = if s == t then none else some false

-- The switch on two values that differ.
unfoldable pub shadowed : Option AnyValue → Option AnyValue → Option AnyValue
shadowed none none = none
shadowed none (some b) = some b
shadowed (some a) none = some a
shadowed (some a) (some b) = some b

-- What the two parents hold under the key; `none` outside is the panic of the comparison.
unfoldable pub value : Option AnyValue → Option AnyValue → Option (Option AnyValue)
value pool_val submit_val = elim (same_value pool_val submit_val) [
  | none ↦ none
  | some same ↦ some (if same then submit_val else shadowed pool_val submit_val)
]

-- The deadlines of the two parents, and `none` for the false of the pair.
unfoldable pub deadline : Option ℤ → Option ℤ → Option ℤ
deadline (some d1) (some d2) = some (if ltb_ℤ d1 d2 then d1 else d2)
deadline (some d1) none = some d1
deadline none (some d2) = some d2
deadline none none = none

-- Where a callback of context.AfterFunc stands: not registered yet, waiting for its context,
-- running before or behind the once, over, or stopped by its sibling.
pub data Callback : Type 0 where
  unregistered armed started stopping finished stopped : Callback

-- A parent: its error once it has ended, and the callback on it.
pub record Parent : Type 0 where
  pub failure : Option Error
  pub callback : Callback

-- The once has run exactly if `done` is closed.
pub record JobContext : Type 0 where
  pub pool_ctx : Parent
  pub submit_ctx : Parent
  pub done : Bool
  pub kept : Option Error

-- newJobContext up to the registrations; a nil parent panics.
unfoldable pub new_job_context : Option (Option Error) → Option (Option Error) → Option JobContext
new_job_context none s = none
new_job_context (some p) none = none
new_job_context (some p) (some s) = some (record {
  pool_ctx = record { failure = p; callback = unregistered };
  submit_ctx = record { failure = s; callback = unregistered };
  done = false;
  kept = none;
})

-- AfterFunc: the callback starts at once on a context that has ended.
unfoldable pub after_func : Option Error → Callback
after_func none = armed
after_func (some e) = started

unfoldable pub register : Parent → Parent
register p = record p { callback = after_func p.failure }

-- The end of a context starts a callback that waits for it.
unfoldable pub wake : Callback → Callback
wake armed = started
wake c = c

unfoldable pub end : Error → Parent → Parent
end e p = record { failure = some e; callback = wake p.callback }

-- The stop function has no effect on a callback that has started.
unfoldable pub halt : Callback → Callback
halt armed = stopped
halt c = c

unfoldable pub stop : Parent → Parent
stop p = record p { callback = halt p.callback }

-- `once.Do` with the function of a callback.
unfoldable pub settle : Option Error → JobContext → JobContext
settle e j = if j.done then j else record j { done = true; kept = e }

unfoldable pub job_err : JobContext → Option Error
job_err j = if j.done then j.kept else none

-- One action of a callback, of a parent or of newJobContext, whose registrations hold the lock that
-- a callback needs to read the stop function of its sibling.
pub data Step (j : JobContext) : JobContext → Type 0 where
  pool_registers :
      j.pool_ctx.callback ≡ unregistered → Step j (record j { pool_ctx = register j.pool_ctx })
  submit_registers :
      j.pool_ctx.callback ≢ unregistered
      → j.submit_ctx.callback ≡ unregistered
      → Step j (record j { submit_ctx = register j.submit_ctx })
  pool_ends :
      (e : Error) → j.pool_ctx.failure ≡ none → Step j (record j { pool_ctx = end e j.pool_ctx })
  submit_ends :
      (e : Error)
      → j.submit_ctx.failure ≡ none
      → Step j (record j { submit_ctx = end e j.submit_ctx })
  pool_runs :
      j.pool_ctx.callback ≡ started
      → Step j (
          settle j.pool_ctx.failure
            (record j { pool_ctx = record j.pool_ctx { callback = stopping } }))
  submit_runs :
      j.submit_ctx.callback ≡ started
      → Step j (
          settle j.submit_ctx.failure
            (record j { submit_ctx = record j.submit_ctx { callback = stopping } }))
  pool_stops :
      j.pool_ctx.callback ≡ stopping
      → j.submit_ctx.callback ≢ unregistered
      → Step j (record j {
        pool_ctx = record j.pool_ctx { callback = finished };
        submit_ctx = stop j.submit_ctx;
      })
  submit_stops :
      j.submit_ctx.callback ≡ stopping
      → Step j (record j {
        submit_ctx = record j.submit_ctx { callback = finished };
        pool_ctx = stop j.pool_ctx;
      })

pub data Reach (j : JobContext) : JobContext → Type 0 where
  start : Reach j j
  later : {u v : JobContext} → Reach j u → Step u v → Reach j v
