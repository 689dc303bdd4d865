-- ===== src/Tests.antt =====
-- The theorems at concrete inputs, and runs of the definitions.
pub mod Data
mod Wire
mod Logs
pub mod Metadata
mod Threads
mod Topics
mod Torn
mod Unwritten
pub mod Requests
mod Answers
mod Dumps
mod Brokers
mod Pipeline
pub mod Sessions
pub mod Visible
mod EndToEnd
