-- ===== src/Scripts.antt =====
-- The repository's scripts in Python: the operator's command line, and the proxy of the stack without
-- Docker.
pub mod LedgerAdmin
pub mod RestProxy
