-- ===== src/Tests.antt =====
-- Runs of the model at concrete data, and the theorems at inputs that meet their hypotheses.
mod Patches
mod Captures
mod Service
mod Dispatch
mod Samples
mod Rules
mod Entries
mod Traffic
mod Stored
mod Flow
mod Mocks
