-- ===== src/Airdrop.antt =====
-- src/airdrop/: the receiver of transfers.
pub mod Paths
pub mod SafeNames
pub mod PathSafety
pub mod Cpio
pub mod Staging
pub mod Extract
pub mod Outgoing
pub mod DvZip
pub mod Headers
pub mod Listing
pub mod SentTree
pub mod Blocks
pub mod Delivery
pub mod Steps
pub mod Limits
pub mod Publish
pub mod Outcomes
pub mod AnyArchive
pub mod Disk
pub mod Names
pub mod Http
pub mod HttpBodies
pub mod HttpLimits
pub mod Grants
pub mod GrantSafety
