-- ===== src/Socket.antt =====
-- The web-socket frames of internal/api/ws_conn.go.
pub mod Bytes
pub mod Frames
pub mod Reading
pub mod Loop
pub mod Answers
