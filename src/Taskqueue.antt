-- ===== src/Taskqueue.antt =====
-- pkg/taskqueue: the heap, the in-memory backend, the dead letters, the queue and the lobby.
pub mod Types
pub mod Heap
pub mod Backend
pub mod Memory
pub mod DeadLetter
pub mod Queue
pub mod Lobby
mod Tests
