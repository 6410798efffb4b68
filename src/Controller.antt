-- ===== src/Controller.antt =====
-- Package internal/controller: DatabaseReconciler of internal/controller/database_controller.go.
pub mod State
pub mod Spec
pub mod Admitted
pub mod Message
pub mod Metrics
pub mod Tags
pub mod Source
pub mod Calls
pub mod Store
pub mod Resources
pub mod Delete
pub mod Reconcile
pub mod Lifecycle
