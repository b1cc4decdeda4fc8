-- ===== src/Server/Http.antt =====
-- internal/server/http: what the API answers. A request is what its handlers read of it; logs and the
-- encoding of bodies are left out.
pub mod Routes
pub mod Errors
pub mod Bodies
pub mod Handlers
pub mod Guards
pub mod RateLimit
pub mod Content
pub mod Middleware
pub mod Recorder
pub mod Health
pub mod Recorded
pub mod Recovered
pub mod Handled
pub mod Revalidated
