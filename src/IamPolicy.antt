-- ===== src/IamPolicy.antt =====
-- plugins/modules/iam_policy.py: the inline policies of a user, a role or a group. `Client` is the
-- interface of the IAM calls, and `Policy` the class of that name.
pub mod Client
pub mod Policy
mod Tests
