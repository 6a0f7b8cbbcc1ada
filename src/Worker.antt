-- ===== src/Worker.antt =====
-- The video worker (src/workers/video.worker.ts): the circuit breaker of the provider Vast, the
-- execution of a provider plan, and the handler of a queue entry.
pub mod Breaker
pub mod Plan
pub mod Task
pub mod Steps
pub mod Pipeline
pub mod Handle
pub mod Books
