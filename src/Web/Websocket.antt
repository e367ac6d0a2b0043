-- ===== src/Web/Websocket.antt =====
-- apps/web/src/websocket: the dispatcher of events, the delays between attempts to connect, and the
-- client that uses both.
pub mod Events
pub mod Reconnect
pub mod Client
mod Tests
