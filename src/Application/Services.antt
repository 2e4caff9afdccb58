-- ===== src/Application/Services.antt =====
-- src/main.cpp: the objects that `serve` creates and whose references the routes hold: the readiness
-- flag and the repository under the two services.
use leta.Application.HealthService.{HealthService}
use leta.Application.IndexRepository.{IndexRepository}

pub record Services (repository : IndexRepository) : Type 0 where
  pub health : HealthService
  pub indexes : IndexRepository.State repository
