-- ===== src/Memory.antt =====
-- backend/app/services/memory.
pub mod Skills
pub mod Documents
pub mod SkillGraph
pub mod DrillPlanner
pub mod Builder
pub mod Consolidation
pub mod Loader
