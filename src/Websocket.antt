-- ===== src/Websocket.antt =====
-- pantry/websocket: the hub with its clients and rooms (hub.go).
pub mod Hub
