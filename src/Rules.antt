-- ===== src/Rules.antt =====
-- internal/rules/engine.go: the rules that a message must pass before it is queued for a pairing.
pub mod Filter
pub mod Tags
pub mod Hashtags
pub mod Files
pub mod QuietHours
pub mod Spam
