-- ===== src/WebSocket.antt =====
-- proxy/raw_websocket.py: the frame codec and the session of `RawWebSocket`.
pub mod Mask
pub mod Frame
pub mod Session
pub mod Connect
