-- ===== src/Policy.antt =====
-- The policies that the kernel module shares with its host tests, one module for each header:
-- kernel/trigger6_match.h, trigger6_query.h, trigger6_quiesce.h and trigger6_refresh.h.
pub mod Match
pub mod Query
pub mod Quiesce
pub mod Refresh
