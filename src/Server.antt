-- ===== src/Server.antt =====
-- The server's packages: internal/server/service, internal/server/http and
-- internal/server/web.
pub mod Service
pub mod Http
pub mod Web
