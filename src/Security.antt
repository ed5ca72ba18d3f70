-- ===== src/Security.antt =====
-- internal/security: rate limits per source and destination, and the safe defaults of the file rules.
pub mod RateLimit
pub mod Defaults
pub mod Environment
