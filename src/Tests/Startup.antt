-- ===== src/Tests/Startup.antt =====
-- The process at concrete arguments, and the clock.
use leta.Prelude.{pos, negsuc, ◌≡◌, refl, true, ◌⊎◌, inr, [], ◌∷◌, codes}
use leta.Startup.{BuildInfo, version_line}
use leta.Startup.Clock.{system_clock_now}
use leta.Startup.Serving.{main}
use leta.Startup.Lifetime.{is_bound, listened}
use leta.Startup.Arguments.{AsksVersion, IsBare, main_lem}
use leta.Tests.Toy.{toy_json, toy_library}
use leta.Tests.Dispatch.{toy_dispatcher}
use leta.Tests.Lifetime.{toy_listener}

abbrev a_build : BuildInfo
a_build = record {
  version = codes "0.1.0-dev";
  commit = codes "unknown";
  build_type = codes "Debug";
  compiler = codes "GNU 13.2.0";
}

main_lem_example :
    let exited =
      main toy_json toy_library toy_dispatcher toy_listener a_build (codes "leta" ∷ []) true in
    (exited.services.health.is_available ≡ true
      → IsBare (codes "leta" ∷ [])
        × (is_bound toy_json toy_library toy_dispatcher toy_listener true ≡ true))
    × (exited.status ≡ 0
        → AsksVersion (codes "leta" ∷ [])
          ⊎ (IsBare (codes "leta" ∷ [])
              × (is_bound toy_json toy_library toy_dispatcher toy_listener true ≡ true)
              × (listened toy_json toy_library toy_dispatcher toy_listener true ≡ inr true)))
main_lem_example =
    main_lem toy_json toy_library toy_dispatcher toy_listener true a_build (codes "leta" ∷ [])

test_version :
    (main toy_json toy_library toy_dispatcher toy_listener a_build
      (codes "leta" ∷ codes "--version" ∷ [])
      true).stdout
    ≡ codes "leta 0.1.0-dev (unknown, Debug, GNU 13.2.0)\n"
unfolding main version_line
test_version = refl

-- Half a millisecond after the start of 1970, and half a millisecond before it.
test_clock :
    (system_clock_now 1000000 (pos 500000) ≡ pos 0)
    × (system_clock_now 1000000 (negsuc 499999) ≡ negsuc 0)
unfolding system_clock_now
test_clock = (refl, refl)
