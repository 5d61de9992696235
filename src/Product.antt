-- ===== src/Product.antt =====
-- Exchange Product: the credentials, audits and quotas of
-- product/src/cyrene_exchange_product/{store.py,quota.py}.
pub mod Resources
pub mod Tables
pub mod Credentials
pub mod Keys
pub mod Audits
pub mod Quotas
pub mod Usage
pub mod Isolation
pub mod Replay
pub mod Distinct
pub mod Admissions
pub mod Routes
pub mod KeyService
pub mod Secrets
pub mod Tests
