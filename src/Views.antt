-- ===== src/Views.antt =====
-- studio/src/components: what the components render, as trees of elements.
pub mod Html
pub mod Formats
pub mod Values
pub mod Engine
pub mod Profile
pub mod Details
pub mod Rail
pub mod Pages
pub mod Cells
pub mod Tables
pub mod Toolbar
pub mod Content
pub mod SearchBar
pub mod Banner
pub mod Page
pub mod Operations
pub mod Overview
pub mod Header
pub mod Analyzer
pub mod EditRecord
