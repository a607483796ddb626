-- ===== src/Server/Config.antt =====
-- internal/config/config.go. A text is its bytes; `env` looks up an environment variable by its name, and
-- `trim` is strings.TrimSpace.
use cloud_credit_system.Common.{ℕ, Option, none, some, List, []}

-- The variables that Load reads.
pub data Variable : Type 0 where
  postgres_dsn_var tigerbeetle_addr_var temporal_host_var temporal_namespace_var : Variable
  temporal_api_key_var listen_addr_var redis_addr_var api_token_var : Variable

pub record Config : Type 0 where
  pub postgres_dsn : List ℕ
  pub tigerbeetle_addr : List ℕ
  pub tigerbeetle_cluster : ℕ
  pub temporal_host : List ℕ
  pub temporal_namespace : List ℕ
  pub temporal_api_key : List ℕ
  pub listen_addr : List ℕ
  pub redis_addr : List ℕ
  pub api_token : List ℕ

-- `fallbacks` are the texts of the source for the variables whose fallback is not empty.
module _ (env : Variable → Option (List ℕ)) (trim : List ℕ → List ℕ)
    (fallbacks : Variable → List ℕ) where
  unfoldable pub get_env : Variable → List ℕ → List ℕ
  get_env v fallback = elim (env v) [ none ↦ fallback | some text ↦ trim text ]

  unfoldable pub load : Config
  load = record {
    postgres_dsn = get_env postgres_dsn_var (fallbacks postgres_dsn_var);
    tigerbeetle_addr = get_env tigerbeetle_addr_var (fallbacks tigerbeetle_addr_var);
    tigerbeetle_cluster = 0;
    temporal_host = get_env temporal_host_var (fallbacks temporal_host_var);
    temporal_namespace = get_env temporal_namespace_var (fallbacks temporal_namespace_var);
    temporal_api_key = get_env temporal_api_key_var [];
    listen_addr = get_env listen_addr_var (fallbacks listen_addr_var);
    redis_addr = get_env redis_addr_var (fallbacks redis_addr_var);
    api_token = get_env api_token_var [];
  }
