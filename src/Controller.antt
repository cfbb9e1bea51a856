-- ===== src/Controller.antt =====
-- controllers: the reconciliation of a Gslb, one child for each file.
pub mod Health
pub mod Endpoint
pub mod Finalizers
pub mod Ingress
pub mod Status
pub mod Reconcile
pub mod Watch
pub mod Lifecycle
