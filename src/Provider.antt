-- ===== src/Provider.antt =====
-- Nukara_Backend/internal/agentx/provider: which provider and model a request goes to.
pub mod Router
pub mod Order
pub mod Routes
pub mod FirstActive
