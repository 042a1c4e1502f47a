-- ===== src/Realtime.antt =====
-- Package realtime (apps/api/internal/realtime): the one-use tickets of the WebSocket handshake,
-- and the hub that notifies the connected clients.
pub mod Ticket
pub mod Hub
