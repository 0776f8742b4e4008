-- ===== src/Examples.antt =====
-- Runs of the model in the small environment of `Samples`, and the theorems at concrete inputs.
mod Secrets
mod Patches
mod Orgs
mod Directory
mod Logs
mod Requests
mod Tenants
mod Managers
mod Service
mod Routes
mod Printing
