-- ===== src/Telegram.antt =====
-- internal/telegram: the messages of the bot, the producer, and the commands.
pub mod Message
pub mod Media
pub mod Keeps
pub mod Commands
pub mod Dispatch
pub mod Updates
pub mod Frames
pub mod Access
pub mod Ids
pub mod Consumer
