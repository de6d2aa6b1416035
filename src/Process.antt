-- ===== src/Process.antt =====
-- What runs around the services: the connections of pkg/database and pkg/redis, pkg/logger, the server
-- of internal/server and the start-up of cmd/api/main.go.
pub mod Connect
pub mod Server
pub mod Startup
pub mod Laws
mod Tests
