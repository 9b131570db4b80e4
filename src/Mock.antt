-- ===== src/Mock.antt =====
-- tool/portal_mock_server.js, the stand-in for the phone's server: one child for each group of its
-- functions, with the proofs below them.
mod Tests
pub mod Tree
pub mod Listing
pub mod Serve
pub mod Server
pub mod Moves
pub mod Api
pub mod Entries
pub mod Batches
pub mod Actions
pub mod Public
pub mod Http
pub mod Safety
pub mod Wire
