-- ===== src/Runtime.antt =====
-- The peers of src/dger/gen4_runtime_peers.py: each call goes through a protected invoker, and its
-- answer is checked against the correlation before the relay sees it.
pub mod Calls
pub mod Answers
pub mod Peers
pub mod Stage
pub mod Staged
pub mod Compose
pub mod Evidence
pub mod Accepted
pub mod Observed
