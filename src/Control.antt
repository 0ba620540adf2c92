-- ===== src/Control.antt =====
-- internal/control: the controller's store. An operation takes the database and one reading of the
-- clock and gives the database after its transaction, or the error with which it rolled back.
pub mod Schema
pub mod Access
pub mod Identity
pub mod Policy
pub mod Grants
pub mod Sessions
pub mod Acknowledge
pub mod Resources
pub mod Expiry
pub mod Users
pub mod Challenges
pub mod Enroll
pub mod Renew
pub mod Release
pub mod Domain
pub mod Nodes
pub mod Report
pub mod Publish
pub mod Tailnets
pub mod DerpMap
