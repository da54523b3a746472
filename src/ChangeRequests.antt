-- ===== src/ChangeRequests.antt =====
-- apps/api/src/modules/change-requests: requests to change the tree, their review and publication.
pub mod Readers
pub mod Requests
pub mod PublishPerson
pub mod PublishUnion
pub mod PublishUnit
pub mod Publisher
pub mod Store
pub mod Service
pub mod Review
pub mod Calls
pub mod Lifecycle
pub mod Outcomes
pub mod Reviewing
pub mod Quorum
pub mod Reviews
pub mod UnionsKept
pub mod Publication
pub mod Maintenance
pub mod Sweeps
mod Examples
pub mod Sample
