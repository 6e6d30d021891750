-- ===== src/Net.antt =====
-- libraries/net: the write queue of a websocket session (websocket_session.cpp), and the sessions
-- that a message is sent to (shared_state.cpp).
pub mod Session
pub mod Handlers
pub mod Hub
pub mod Delivery
mod Runs
