-- ===== src/DocSections.antt =====
-- docs/html/dynsections.js: the sections of a page that open and close, and the rows of a directory.
pub mod Query
pub mod Folders
pub mod Toggles
