-- ===== src/Portal.antt =====
-- assets/portal/portal.js: the page that the phone serves to browsers.
mod Tests
pub mod Words
pub mod View
pub mod Elements
pub mod Dialog
pub mod Session
pub mod Folder
pub mod Actions
pub mod Batches
pub mod Picker
pub mod Login
pub mod Shell
pub mod Route
pub mod Uploads
