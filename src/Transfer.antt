-- ===== src/Transfer.antt =====
-- What the nodes and the clients move between each other and from the storage (cd2n-lib/lib.go).
pub mod Streams
pub mod Reads
pub mod Writes
pub mod Requests
pub mod Answers
pub mod Storage
pub mod Segments
pub mod Recovery
mod Tests
