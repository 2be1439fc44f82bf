-- ===== src/Streams.antt =====
-- The streams of include/xul/io over memory.
pub mod MemoryInput
pub mod MemoryOutput
pub mod DataInput
pub mod DataOutput
pub mod Writing
pub mod RoundTrip
pub mod Reading
pub mod Fields
pub mod Bounds
pub mod Orders
pub mod Serial
mod Runs
