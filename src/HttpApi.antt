-- ===== src/HttpApi.antt =====
-- api/internal/httpapi: the WebSocket frames, the hub of clients, and the routes with their handlers.
pub mod Frame
pub mod Hub
pub mod Requests
pub mod Handlers
pub mod Routes
