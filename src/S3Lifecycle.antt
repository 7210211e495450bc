-- ===== src/S3Lifecycle.antt =====
-- plugins/modules/s3_lifecycle.py: the lifecycle rules of a bucket. `Rule` holds the dictionaries,
-- `Build` the rule that the parameters ask for, `Merge` and `Create` the update of the current
-- configuration, `Client` the S3 calls, `Destroy` the removal of rules and the two operations, and
-- `Main` the function `main`.
pub mod Rule
pub mod Build
pub mod Merge
pub mod Create
pub mod Client
pub mod Destroy
pub mod Main
mod Tests
