-- ===== src/Application.antt =====
-- The application layer (src/application): the ports that it owns and the services over them.
pub mod IndexRepository
pub mod IndexService
pub mod IngestService
pub mod HealthService
pub mod HttpServer
pub mod History
pub mod Services
