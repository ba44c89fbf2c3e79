-- ===== src/Examples.antt =====
-- Runs of the model on small inputs: one for each theorem that has hypotheses.
pub mod Toy
pub mod WebSocket
pub mod FakeTls
pub mod Splitter
pub mod Handshake
pub mod Hello
pub mod ClientInit
pub mod Bridge
pub mod Pool
pub mod Route
pub mod Balancer
pub mod Config
pub mod Server
pub mod Connect
pub mod Update
pub mod Tray
pub mod Loop
