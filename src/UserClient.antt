-- ===== src/UserClient.antt =====
-- The user's client library (cd2n-client/client).
pub mod Box
pub mod Cachers
pub mod Payment
pub mod Uploads
pub mod Downloads
mod BoxData
mod BoxTests
mod Tests
mod TaskTests
mod DownloadTests
