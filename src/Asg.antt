-- ===== src/Asg.antt =====
-- plugins/modules/ec2_asg.py: the rolling replacement of the instances of an auto scaling group, and
-- the deletion of one.
-- `Properties` reads a group, `Select` tells new instances from old ones, `Chunks` cuts the batches,
-- `Batch` decides and terminates one batch, `Wait` polls for a condition, and `Replace` decides what
-- a replacement has to do. `Cloud` is the interface of the calls, `Balancers` has the waits for load
-- balancers and target groups, `Rolling` is the whole replacement, and `Delete` the deletion.
pub mod Properties
pub mod Select
pub mod Chunks
pub mod Batch
pub mod Wait
pub mod Replace
pub mod Cloud
pub mod Balancers
pub mod Rolling
pub mod Delete
mod Tests
