-- ===== src/Store.antt =====
-- Nukara_Backend/internal/store: the in-memory data store.
pub mod Types
pub mod AgentTypes
pub mod Notifications
pub mod Segments
pub mod Persona
pub mod Index
pub mod State
pub mod Tables
pub mod Presence
pub mod Accounts
pub mod Bots
pub mod Chats
pub mod Activity
pub mod AgentData
pub mod MemoryGraph
pub mod AgentSteps
pub mod Invariant
pub mod Reachable
