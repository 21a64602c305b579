-- ===== src/Glob.antt =====
-- internal/glob/overlap.go: glob patterns, and whether two of them can match one path.
pub mod Ranges
pub mod Pattern
pub mod Search
pub mod Parse
pub mod Paths
mod Tests
