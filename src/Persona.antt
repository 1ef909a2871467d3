-- ===== src/Persona.antt =====
-- Nukara_Backend/internal/agentx/persona: what a proposed change of a bot's persona has to pass.
pub mod Changes
pub mod Risk
pub mod Bounds
pub mod Routing
pub mod Compiler
