-- ===== src/Lib.antt =====
-- go-asynctasklib: tasks, task groups, retries, semaphores, yielders, a task queue and a worker
-- pool. This library models the packages under pkg/ and proves what makes them correct.
--
-- Taskqueue is pkg/taskqueue. Heap is Go's container/heap as taskHeap drives it: up and down on
-- fuel, with a proof that the length is enough. Memory is MemoryBackend (memory_backend.go), with
-- Memory/Contract its refinement of the interface in Backend (backend.go). DeadLetter is
-- deadletter.go. Queue is queue.go over the two interfaces: route, sweep, Enqueue, Claim.Ack and
-- Claim.Nack in Queue, Dequeue and Redrive in Queue/Consume, the goroutine of Stream in
-- Queue/Stream. Queue/History lets producers, consumers and the reaper call in any order, late and
-- repeated settlements included, and between the two writes of a Redrive or of a burial; Queue/Sweeping is one tick of the reaper, Queue/Reaper its loop.
--
-- Retry is pkg/retry: the options and the cap in Retry, the strategies in Retry/Linear, whose
-- products wrap as int64 does, and Retry/Exponential, over an interface of the float64 operations.
--
-- Task is pkg/task: the transitions, run, Go and GoRetry in Task, where a run is what ends it and a
-- call of Go says in which order its two goroutines go on; GoRetry is a loop on fuel, for which
-- Task/Retries has the amount. Task/Delegate is run beside the goroutine of delegateFn, with the
-- channel, the context and the timeout between them, and a function that returns, panics or ends
-- its goroutine by runtime.Goexit. Task/Build is builder.go, Task/Hooks state.go.
--
-- Yielder is pkg/yielder: the settings and the kept error in Yielder, the goroutine as steps that
-- its consumer, Stop and the context come between in Yielder/Generate, for a generator function,
-- and in Yielder/Input, for an input channel. Taskqueue/Lobby is lobby.go over it: Lobby/Transfer
-- and Lobby/Pushing take its calls one after the other, Lobby/Closing and Lobby/Safety in any order
-- under the lock.
--
-- Semaphore is pkg/semaphore, a count of the permits that are out. Taskgroup is pkg/taskgroup over
-- it; Taskgroup/Slots lets the calls of Submit, the ends of tasks and Stop follow in any order,
-- Taskgroup/Batch is SubmitBatch, Taskgroup/Calls has Stop and Wait step by step between the calls
-- of Submit and the runs of the tasks, one call of each at a time, and Taskgroup/ErrGroup is
-- SubmitWithErrGroup over an interface of golang.org/x/sync/errgroup.
--
-- Workerpool is pkg/workerpool. Config is the auto-scale configuration of pool.go; Scaler, Victim
-- and Ticks are scaler.go, from the decision to the loop over ticks, each with what it reads of the
-- load and the workers; Claims is claims.go, its loop over rounds that carry what the clock, the
-- channels and the workers do. Worker is worker.go, its loop as steps that leave and the end of the
-- context come between, with a handler that may end the loop by runtime.Goexit; Start is New of pool.go, Closing the end of its close, Pool is Submit, the
-- closing and the dispatcher of pool.go, in any order and with the answers of Claims; JobContext is
-- jobcontext.go, with the callbacks of its parents as steps. System puts the three parts together
-- that share the claims channel: the dispatcher with the loop of submit, the channel, and each
-- worker with its own steps, joins and leaves, where a worker with a loop does not join again.
--
-- Conventions. A method returns the new state with its result; `none` outside is a panic, or a call
-- that has not returned yet. A context is what `ctx.Err()` gives at each reading, a time the
-- integer of its nanoseconds; a token of github.com/google/uuid and each reading of the clock is an
-- argument. A hook of an observer is an entry of a log. A method under a mutex is one step.
--
-- Not modelled: a worker that joins again while the loop of an earlier join goes on, two calls of
-- Stop or of Wait of one task group at a time, and the getters that return a field.
pub mod Base
pub mod Retry
pub mod Semaphore
pub mod Task
pub mod Taskgroup
pub mod Yielder
pub mod Taskqueue
pub mod Workerpool
