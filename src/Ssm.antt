-- ===== src/Ssm.antt =====
-- plugins/connection/aws_ssm.py: commands run over an SSM session. `Text` holds the text methods,
-- `Process` the wrapping of a command and the reading of its result, `Exec` the loop that reads the
-- session's output, `Retry` the decorator that tries again, and `Transport` the transfer of files.
pub mod Text
pub mod Process
pub mod Exec
pub mod Retry
pub mod Transport
mod Tests
