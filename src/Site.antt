-- ===== src/Site.antt =====
-- internal/site: which pages of a documentation site are read, and in what order.
pub mod Nav
pub mod Absent
pub mod Address
pub mod Discover
pub mod Web
pub mod Crawl
