-- ===== src/Tests.antt =====
-- Runs of the models on small inputs, and the theorems at inputs that meet their hypotheses.
pub mod Samples
mod Review
mod Engine
mod Registry
pub mod Acquisition
mod Processing
mod Identity
mod Streaming
mod Reference
