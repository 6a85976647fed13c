-- ===== src/Portfolio.antt =====
-- The portfolio's stages: extensions/aille_arbitration.cpp, aille_portfolio_constraints.cpp,
-- aille_temporal_consistency.cpp and aille_stress_regime_override.cpp. A `double` is one type
-- with the interface, and a container with its count is the list of its first `count` entries.
pub mod Assets
pub mod Arbitration
pub mod Constraints
pub mod Temporal
pub mod Stress
mod Tests
