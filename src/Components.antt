-- ===== src/Components.antt =====
-- frontend/src/components: what the pages are built from.
pub mod Status
pub mod Chart
pub mod Dialogs
pub mod PollCard
pub mod Layout
pub mod Offers
pub mod Primitives
