-- ===== src/Web.antt =====
-- The browser client and its server (web/src): saving an edited file, uploads, the file listing, and
-- the authentication of requests.
pub mod Blocks
pub mod Hex
pub mod Workers
pub mod Retry
pub mod Save
pub mod Jwks
pub mod Cookies
pub mod Gate
pub mod Actions
pub mod Upload
pub mod Move
pub mod Forward
pub mod Grid
pub mod Trash
pub mod Edit
pub mod Names
pub mod Downloads
pub mod Shared
pub mod Queue
pub mod Preview
pub mod Crumbs
pub mod SignForms
pub mod UrlPreview
pub mod Probe
pub mod Capture
pub mod Keys
pub mod Scroll
pub mod Sidebar
pub mod RelativeTime
pub mod PdfCache
pub mod Home
pub mod Profile
pub mod History
pub mod Thumbnail
pub mod Batches
