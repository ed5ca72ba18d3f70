-- ===== src/Database/Migrations.antt =====
-- internal/database/migrations.go: how a database file is brought to the schema of the program.
pub mod Legacy
pub mod Catalog
pub mod Script
pub mod Session
pub mod Columns
pub mod Steps
pub mod Run
pub mod Data
pub mod Words
pub mod Keeping
pub mod Kept
pub mod Applied
pub mod Holds
pub mod Safe
pub mod Current
pub mod Shape
pub mod InitReached
pub mod Reached
pub mod Progress
pub mod Rounds
pub mod Finish
