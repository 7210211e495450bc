-- ===== src/Kinesis.antt =====
-- plugins/modules/kinesis_stream.py: creation, update, deletion and encryption of a stream. `Client`
-- has the calls of the service and the messages, `Tags` and `Actions` what is called on it,
-- `Find` the search for the stream and the wait for a status, `Update`, `Create`, `Delete` and
-- `Encryption` the functions of those names, `Main` the module's decision, and
-- `Convert` the renaming of a report's keys.
-- `Closed` carries what holds of the calls over to the module, for `CheckMode` and `Ends`.
pub mod Convert
pub mod Client
pub mod Tags
pub mod Actions
pub mod Find
pub mod Update
pub mod Create
pub mod Delete
pub mod Encryption
pub mod Main
pub mod CheckMode
pub mod Ends
pub mod Closed
mod Tests
