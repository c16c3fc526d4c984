-- ===== src/FreqGov.antt =====
-- The overflow-aware CPU frequency governor, src/freq_gov.c.
pub mod Table
pub mod Sysfs
pub mod Governor
