-- ===== src/Agents.antt =====
-- The agents (app/agents) and the policy that says which of them a session has
-- (app/configs/agent_policy.py).
pub mod Policy
pub mod Dedup
pub mod Telemetry
pub mod Messages
pub mod Guards
