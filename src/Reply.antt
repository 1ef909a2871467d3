-- ===== src/Reply.antt =====
-- Nukara_Backend/internal/agentx/postprocess: how a reply is cut into messages.
pub mod Split
pub mod Visible
pub mod Bounds
