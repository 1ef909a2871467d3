-- ===== src/Subtasks.antt =====
-- The subtasks that follow a turn: internal/agentx/subtasks.
pub mod Extract
pub mod Normal
pub mod Decide
pub mod Remember
pub mod Apply
pub mod Runner
pub mod Eligible
pub mod Growth
pub mod Runtime
