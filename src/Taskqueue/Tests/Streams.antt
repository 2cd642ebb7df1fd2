-- ===== src/Taskqueue/Tests/Streams.antt =====
-- A run of the goroutine of Stream, and one of the reaper.
use go_asynctasklib.Taskqueue.Tests.Queues.{
  first_holding, with_lease-IsValid, with_waiting, with_lease, round, first_claim, deliver_run,
  MemoryQueue,
}
use go_asynctasklib.Taskqueue.Memory.{memory_backend}
use go_asynctasklib.Taskqueue.DeadLetter.{memory_dead_letter}
use go_asynctasklib.Base.Table
use go_asynctasklib.Taskqueue.Queue.Reaper.{reaper, reaper_clears, Passes, Awaits}
use go_asynctasklib.Taskqueue.Queue.Presence.{Where}
use go_asynctasklib.Taskqueue.Memory.Contract.{memory_view, memory_implements}
use go_asynctasklib.Taskqueue.DeadLetter.Contract.{memory_dead_view, memory_keeps}
use go_asynctasklib.Taskqueue.Queue.Stream as Stream
use go_asynctasklib.Taskqueue.Queue.Stream.{
  World, Reach, IsAccounted, new_stream, stream-IsAccounted,
}
use go_asynctasklib.Base.{[], ◌∷◌, refl, arith, none, ◌≡◌, some, ◌⊎◌}
use go_asynctasklib.Base.Int.{pos}

-- The claim that was dequeued goes through the feed to the yielder.
abbrev passed_on : World memory_backend memory_dead_letter
passed_on = record (new_stream memory_backend memory_dead_letter with_waiting) {
  queue = with_lease;
  taken = first_claim ∷ [];
  dequeued = first_claim ∷ [];
}

run :
    Reach memory_backend memory_dead_letter 1
      (pos 10)
      (new_stream memory_backend memory_dead_letter with_waiting)
      passed_on
run =
    Stream.later
      (Stream.later
        (Stream.later Stream.start
          (Stream.dequeues (pos 90) (round ∷ []) with_lease first_claim refl refl deliver_run))
        (Stream.sends first_claim refl (omega arith)))
      (Stream.takes first_claim [] refl)

stream-IsAccounted_example : IsAccounted memory_backend memory_dead_letter 1 passed_on
stream-IsAccounted_example =
    stream-IsAccounted memory_backend memory_dead_letter 1 (pos 10) with_waiting passed_on run

-- The deadline of the lease is 130.
reaper_clears_example :
    (r : MemoryQueue) × (reaper memory_backend memory_dead_letter
        (pos 120 ∷ pos 200 ∷ [])
        with_lease
      ≡ some r)
    × ((Passes (pos 130) (pos 120 ∷ pos 200 ∷ []) × (memory_view.held r.backend 7 ≡ none))
        ⊎ (Awaits (pos 130) (pos 120 ∷ pos 200 ∷ [])
            × (memory_view.held r.backend 7 ≡ some first_holding)))
    × ∥ Where memory_backend memory_view memory_dead_letter memory_dead_view r.backend r.dead 1 ∥₁
unfolding Table.lookup
reaper_clears_example =
    reaper_clears memory_backend memory_view memory_dead_letter memory_dead_view memory_implements
      memory_keeps (pos 120 ∷ pos 200 ∷ []) with_lease 7 first_holding with_lease-IsValid tt refl
