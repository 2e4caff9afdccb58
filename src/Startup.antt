-- ===== src/Startup.antt =====
-- src/main.cpp and src/adapters/config/build_info.hpp and .cpp: the constants and the lines that the
-- process writes. The values of the build are an argument.
pub mod Clock
pub mod Serving
pub mod Lifetime
pub mod Arguments
use mathlib.Core.Bool.{false≢true}
use leta.Prelude.{
  ap, ℕ, ◌≡◌, refl, true, List, [], ◌∷◌, ◌++◌, Bytes, codes, equal, equal_iff, if◌then◌else◌, ◌⊎◌,
  inl, inr, arith, Bool-cases,
}
use leta.Prelude.Decimal.{to_string}
use leta.Core.Error.{Result, ok, err}
use leta.Application.HttpServer.{default_options}
use leta.Application.HealthService.{HealthService, mark_available}
use leta.Application.HealthService as Health

-- struct BuildInfo
pub record BuildInfo : Type 0 where
  pub version : Bytes
  pub commit : Bytes
  pub build_type : Bytes
  pub compiler : Bytes

-- version_line
unfoldable pub version_line : BuildInfo → Bytes
version_line info =
    codes "leta "
    ++ (info.version
        ++ (codes " ("
            ++ (info.commit
                ++ (codes ", "
                    ++ (info.build_type ++ (codes ", " ++ (info.compiler ++ codes ")")))))))

-- VersionFlag, ListenHost
abbrev pub version_flag : Bytes
version_flag = codes "--version"

abbrev pub listen_host : Bytes
listen_host = codes "0.0.0.0"

-- ListenPort
abbrev pub listen_port : ℕ
listen_port = 7700

-- print_line
unfoldable pub print_line : Bytes → Bytes
print_line text = codes "leta: " ++ (text ++ codes "\n")

-- print_listening
unfoldable pub print_listening : ℕ → ℕ → Bytes
unfolding print_line
print_listening port worker_threads = print_line (
    codes "listening on "
    ++ (listen_host
        ++ (codes ":"
            ++ (to_string port
                ++ (codes " (" ++ (to_string worker_threads ++ codes " worker threads)"))))))
