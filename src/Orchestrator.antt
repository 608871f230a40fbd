-- ===== src/Orchestrator.antt =====
-- orchestrator/: the parts of a live call's pipeline that keep a state.
pub mod Hangup
pub mod Failover
