-- ===== src/Store/AgentData.antt =====
-- Provider settings, turns, compacts, memory items, runtime states and persona change events of
-- internal/store/agentx_data.go. A result `none` or `false` is the error of the source.
-- The copies of slices (`append([]T(nil), …)`, cloneMemoryItem) are the identity on values.
pub mod Settings
pub mod Memories
pub mod Changes
pub mod Laws
pub mod Listings
