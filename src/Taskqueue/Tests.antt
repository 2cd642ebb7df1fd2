-- ===== src/Taskqueue/Tests.antt =====
-- Runs of the queue on small inputs, and the theorems at them.
mod Backends
mod Queues
mod Streams
