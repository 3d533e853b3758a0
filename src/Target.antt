-- ===== src/Target.antt =====
-- internal/stats: the statistics of one ping target. `State` has the records, `Log` the bounded event
-- log, `Health` the judgment of a target, `Update` the methods that change the counters, `Settings`
-- the setters, and `Probe` the handles that a reset invalidates. The other children are proofs.
pub mod State
pub mod Log
pub mod Health
pub mod Update
pub mod New
pub mod Settings
pub mod Probe
pub mod Tally
pub mod Setters
pub mod Fresh
pub mod Window
pub mod Outcomes
pub mod Hysteresis
pub mod Retained
pub mod Tests
