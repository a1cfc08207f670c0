-- ===== src/Gen3/Safe.antt =====
-- What holds of every run of the first relay (src/dger/relay_v1.py and the files that it takes its
-- methods from).
pub mod Trace
pub mod Rules
pub mod Terminal
pub mod Answer
pub mod Invoke
pub mod Reconcile
pub mod Chm
pub mod Advance
pub mod Accept
pub mod Reach
pub mod Promises
