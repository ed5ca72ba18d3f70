-- ===== src/Tests.antt =====
-- Concrete events, stores and rules, and the theorems applied to them.
pub mod Data
pub mod Database
pub mod Migrations
pub mod Queue
pub mod Security
pub mod Rules
pub mod Bots
pub mod Services
pub mod System
pub mod Cli
