-- ===== src/Feature.antt =====
-- pantry/feature: feature flags (feature.go, and MemoryStore of store.go).
pub mod Values
pub mod Rollout
pub mod Flags
pub mod Stages
pub mod Manager
mod Examples
