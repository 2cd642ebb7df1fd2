-- ===== src/Workerpool.antt =====
-- pkg/workerpool: the autoscaler, the claims dispatcher and the pool.
pub mod Scaler
pub mod Victim
pub mod Ticks
pub mod Claims
pub mod Config
pub mod JobContext
pub mod Worker
pub mod Pool
pub mod Start
pub mod Closing
pub mod System
mod Tests
