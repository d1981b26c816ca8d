-- ===== src/Ui.antt =====
-- internal/ui: the web interface.
pub mod Text
pub mod Answers
pub mod Charts
pub mod Views
pub mod Flash
pub mod Listing
pub mod Routes
pub mod Server
pub mod Pages
