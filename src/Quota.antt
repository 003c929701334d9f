-- ===== src/Quota.antt =====
-- internal/quota: the quota controller. A module for each file of the package.
pub mod Failure
pub mod Scaler
pub mod Capacity
pub mod PodEvents
pub mod Templates
pub mod Desired
pub mod Watcher
pub mod Update
pub mod Controller
