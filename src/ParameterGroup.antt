-- ===== src/ParameterGroup.antt =====
-- plugins/modules/elasticache_parameter_group.py: creation, change, reset and deletion of a group of
-- cache parameters.
pub mod Client
pub mod Values
pub mod Main
mod Tests
