-- ===== src/Communications.antt =====
-- The messages between the processes (libdrqueue/communications.c).
pub mod Wire
pub mod Delivery
pub mod Memory
pub mod Records
pub mod RoundTrips
pub mod Lists
pub mod ListTrips
pub mod StatusTrip
pub mod Stream
pub mod Whole
pub mod Variables
pub mod Jobs
pub mod JobTrip
pub mod VariablesTrip
pub mod Pools
pub mod PoolsTrip
