-- ===== src/Product/Routes.antt =====
-- Endpoints, routes and drafts of Exchange Product: store.py, service.py and routing.py under
-- product/src/cyrene_exchange_product/.
pub mod Stored
pub mod Listing
pub mod Planner
pub mod Service
pub mod Drafts
pub mod Admitted
pub mod Versions
pub mod Concurrent
pub mod Projected
pub mod Mirrored
pub mod Retried
pub mod Confirm
pub mod Order
pub mod Partition
pub mod Plan
pub mod Tenants
pub mod Tests
