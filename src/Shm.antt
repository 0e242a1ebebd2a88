-- ===== src/Shm.antt =====
-- The shared-memory ring buffer between the C++ worker and the Go reader
-- (nvr_core/shm, cpp_engine/memory).
pub mod Meta
pub mod Ring
pub mod Writer
pub mod Fifo
pub mod Append
pub mod Wrap
pub mod Room
pub mod Line
pub mod Safety
pub mod Overrun
pub mod Stale
mod Tests
