-- ===== src/Jobs.antt =====
-- pantry/jobs: the in-memory locker (lock.go), the pool of workers (pool.go), the history of executions (history.go) and cron expressions (cron.go).
pub mod Pool
pub mod History
pub mod Holder
pub mod Locks
pub mod Cron
