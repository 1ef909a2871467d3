-- ===== src/Chat.antt =====
-- Nukara_Backend/internal/api: how the messages of a chat are gathered into turns.
pub mod Aggregate
pub mod Status
pub mod Prompts
pub mod Counts
pub mod Delivery
pub mod Messages
pub mod Content
pub mod Flow
pub mod Turn
pub mod Emotion
