-- ===== src/Tests.antt =====
-- Runs and concrete instances, with a module for each part.
pub mod Codec
pub mod Demo
pub mod Runs
pub mod CodecExamples
pub mod ConnectionExamples
pub mod SystemExamples
pub mod ServerExamples
pub mod FleetExamples
pub mod HandshakeExamples
