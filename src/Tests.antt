-- ===== src/Tests.antt =====
-- Runs of the model, and the theorems at concrete inputs.
pub mod Attributes
pub mod Packets
pub mod Broadcasts
pub mod Netlink
pub mod Scans
pub mod Results
pub mod Interfaces
pub mod Requests
pub mod Servers
pub mod Wiphys
pub mod ScanPackets
pub mod Parcels
