-- ===== src/Worker.antt =====
-- internal/pinger/worker.go: the probe traffic of one target. `History` is the cache of recently
-- settled sequence numbers, `Loop` the select loop, whose ready case the environment chooses, as an
-- event. The other children are proofs.
pub mod History
pub mod Loop
pub mod Cache
pub mod Moves
pub mod Accounts
pub mod Ledger
pub mod Turns
pub mod Balance
pub mod Replies
pub mod Return
pub mod Tests
