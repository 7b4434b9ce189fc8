-- ===== src/Tool.antt =====
-- services/tool: the tools that agents call. `Race` is race.rs.
pub mod Race
