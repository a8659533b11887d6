-- ===== src/Policy.antt =====
-- Watchlists, rules, alerts and the executions of rule actions.
pub mod Executions
pub mod Circuit
pub mod Versioned
pub mod Alerts
pub mod Services
pub mod Watchlists
