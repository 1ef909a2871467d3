-- ===== src/Memory.antt =====
-- Nukara_Backend/internal/agentx/memorygraph: recall, ingestion and the cards of the memory graph.
pub mod Trim
pub mod Cards
pub mod Component
pub mod Reachable
