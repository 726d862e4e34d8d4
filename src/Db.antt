-- ===== src/Db.antt =====
-- backend/src/db: the tables that scheduling rests on and the statements that the code runs on them.
pub mod Rows
pub mod Statements
pub mod Jobs
pub mod Runners
pub mod Pipelines
pub mod Creation
pub mod Tables
