-- ===== src/Elasticache.antt =====
-- plugins/modules/elasticache.py: the class ElastiCacheManager, which creates, changes, deletes and
-- reboots a cache cluster, and waits for its status. `Closed`, `Coherent`, `Ends`, `Reached` and
-- `Limits` have the proofs.
pub mod Client
pub mod Compare
pub mod Status
pub mod Actions
pub mod Main
pub mod Coherent
pub mod Reached
pub mod Limits
mod Tests
pub mod Closed
pub mod Ends
