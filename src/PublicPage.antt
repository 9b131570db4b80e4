-- ===== src/PublicPage.antt =====
-- assets/portal/public.js: the page of a public link.
mod Tests
pub mod Flow
pub mod Folder
pub mod Sending
pub mod View
pub mod Password
