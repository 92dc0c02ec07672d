-- ===== src/Automations.antt =====
-- koraku/automations: what starts an automation.
pub mod EventTriggers
pub mod LocalStore
