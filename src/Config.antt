-- ===== src/Config.antt =====
-- The configuration file of `cRouter` in cRouter.cpp: words, entries, and the engine that takes the
-- entries one stage at a time.
pub mod Parser
pub mod Entries
pub mod Stages
