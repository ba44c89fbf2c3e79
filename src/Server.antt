-- ===== src/Server.antt =====
-- `_handle_client` of proxy/tg_ws_proxy.py with `do_fallback` of proxy/bridge.py: what one session
-- does to the shared state of the proxy.
pub mod World
pub mod Fallback
pub mod Handler
pub mod Shutdown
pub mod Start
