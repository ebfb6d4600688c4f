-- ===== src/Datarights.antt =====
-- services/datarights: the pool that runs export and deletion jobs.
pub mod Deletion
pub mod Jobs
pub mod Requests
pub mod Pool
