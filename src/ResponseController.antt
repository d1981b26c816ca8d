-- ===== src/ResponseController.antt =====
-- internal/controller/pollresponse_controller.go
pub mod Validate
pub mod Status
pub mod Reconcile
