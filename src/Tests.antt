-- ===== src/Tests.antt =====
-- Runs of the definitions on concrete inputs, and the theorems applied to some.
pub mod Pics
pub mod Memory
pub mod Ports
pub mod Timing
pub mod Segments
pub mod Chips
pub mod Pins
pub mod Bytes
pub mod Arithmetic
pub mod Tables
