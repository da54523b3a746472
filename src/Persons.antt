-- ===== src/Persons.antt =====
-- apps/api/src/modules/persons/persons.service.ts and the helpers of apps/api/src/common/util that
-- it calls: names, dates, and the writes of a person inside a transaction.
pub mod Fields
pub mod Writes
pub mod Consistency
pub mod Creating
pub mod Updating
pub mod Detaching
pub mod Deleting
pub mod Sample
mod Examples
