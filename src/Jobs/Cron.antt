-- ===== src/Jobs/Cron.antt =====
-- pantry/jobs/cron.go: parsing of cron expressions. Text is a list of bytes. A Go `int` is an
-- integer in 64 bits.
pub mod Values
pub mod Sorting
pub mod Steps
pub mod Fields
pub mod Bounds
pub mod Returns
pub mod Schedule
pub mod Parse
mod Examples
