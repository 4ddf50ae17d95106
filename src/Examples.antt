-- ===== src/Examples.antt =====
-- The theorems at concrete inputs, and the inputs.
mod Fixtures
mod Streams
mod Parameters
mod Sources
mod Storage
mod Whole
mod Deliveries
mod Terminal
