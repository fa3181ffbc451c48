-- ===== src/Output.antt =====
-- internal/output/output_result.go: what the report says of a scan, from the counts of one package
-- up to the whole result.
pub mod Counts
pub mod Fixes
pub mod Vulns
pub mod Packages
pub mod Sources
pub mod Report
pub mod Layers
pub mod Measures
pub mod Tallies
pub mod Totals
pub mod LayerCounts
pub mod Best
pub mod NextFix
pub mod Grouping
pub mod Shown
pub mod Counting
pub mod Returns
mod Named
pub mod Prefixes
mod Tests
