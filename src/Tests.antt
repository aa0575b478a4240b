-- ===== src/Tests.antt =====
-- Runs of the model at concrete inputs, and each theorem at an input that meets its hypotheses.
mod Fixtures
mod Wire
mod Datapath
mod Messages
mod Runs
mod Vanilla
mod Neo
mod Scubic
mod Load
mod Host
