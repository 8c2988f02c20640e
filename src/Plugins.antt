-- ===== src/Plugins.antt =====
-- internal/plugin and internal/plugin/builtin: the plugins, one child for each.
pub mod Http
pub mod CircuitBreaker
pub mod Access
pub mod Limits
pub mod Validator
pub mod Rewriting
