-- ===== src/PollController.antt =====
-- internal/controller/poll_controller.go
pub mod Phase
pub mod Aggregate
pub mod Ready
pub mod StatusEqual
pub mod Reconcile
