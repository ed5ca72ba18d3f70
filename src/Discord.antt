-- ===== src/Discord.antt =====
-- internal/discord: the messages of the bot, the producer, and the commands.
pub mod Message
pub mod Media
pub mod Keeps
pub mod Access
pub mod Replies
pub mod Commands
pub mod Dispatch
pub mod Frames
pub mod Guard
pub mod Consumer
