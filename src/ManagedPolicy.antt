-- ===== src/ManagedPolicy.antt =====
-- plugins/modules/iam_managed_policy.py: managed policies and their versions. `Client` is the
-- interface of the IAM calls, `Versions` the functions on the versions of a policy, and `Main` the
-- removal of a policy and the function `main`.
pub mod Client
pub mod Versions
pub mod Main
mod Tests
