-- ===== src/Wire.antt =====
-- The JSON of requests and answers: what the server and the SDK write and read.
pub mod Values
pub mod Answers
pub mod Reads
pub mod Seen
pub mod Requests
pub mod Created
pub mod Served
pub mod Stored
pub mod Failed
pub mod Paged
pub mod Services
pub mod Lost
pub mod Measured
pub mod Updated
mod Tests
