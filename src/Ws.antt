-- ===== src/Ws.antt =====
-- internal/ws: the outbound WebSocket connections of a store, with their configuration
-- (pkg/store/ws_config.go).
pub mod Config
pub mod Manager
pub mod Pusher
mod Tests
