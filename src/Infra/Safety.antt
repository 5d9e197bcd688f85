-- ===== src/Infra/Safety.antt =====
-- The runs over the tasks of the ensurer, from lemmas for each task.
pub mod Rules
pub mod Present
pub mod Gateway
pub mod Locale
pub mod Network
pub mod Advanced
pub mod Recover
pub mod Run
