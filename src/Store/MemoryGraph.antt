-- ===== src/Store/MemoryGraph.antt =====
-- The temporal memory graph of internal/store/temporal_memory_graph.go. A result `none` is the
-- error of the source; cloneTemporalMemoryNode is the identity on values.
pub mod Filters
pub mod Nodes
pub mod Edges
pub mod Cards
pub mod Versions
pub mod Laws
