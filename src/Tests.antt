-- ===== src/Tests.antt =====
-- Runs of the definitions on concrete inputs, and the theorems at inputs that meet their hypotheses.
mod Outside
mod Scanners
mod Text
mod Controller
mod Agreement
mod Reconcile
mod Delete
mod Tags
mod Lifecycle
mod Secrets
mod Manager
mod Dsn
mod Metrics
mod Admitted
mod Grants
