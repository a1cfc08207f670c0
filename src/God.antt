-- ===== src/God.antt =====
-- deployment/dger_god_adapter.py: what the deployment adapter writes and puts back.
pub mod Snapshot
