-- ===== src/Http/SystemRoutes.antt =====
-- src/adapters/http/system_routes.hpp and system_routes.cpp: GET /health.
use leta.Prelude.{codes, inr}
use leta.Application.HealthService.{HealthService, Readiness, starting, available, readiness}
use leta.Application.HttpServer.{get, HttpRequest, HttpResponse, Routing}
use leta.Application.IndexRepository.{IndexRepository}
use leta.Application.Services.{Services}

-- health_response
unfoldable pub health_response : Readiness → HttpResponse
health_response available = record { status = 200; body = codes "{\"status\":\"available\"}" }
health_response starting = record { status = 503; body = codes "{\"status\":\"starting\"}" }

-- the handler that register_system_routes registers for GET /health
unfoldable pub health_handler : HealthService → HttpRequest → HttpResponse
unfolding health_response readiness
health_handler health request = health_response (readiness health)

-- register_system_routes
unfoldable pub register_system_routes :
    (repository : IndexRepository) (server : Routing (Services repository))
    → Routing.Server server
    → Routing.Server server
unfolding health_handler
register_system_routes repository server routes =
    Routing.add_route server get (codes "/health")
      (λ readings request s. (inr (health_handler s.health request), s)) routes
