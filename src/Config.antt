-- ===== src/Config.antt =====
-- `configuration` and the options that `AppModule` makes of it. `env` is the environment of the process,
-- and `parse_int` is `parseInt` with base 10, where a text without a number is `none`.
-- Source: src/config/configuration.ts, src/app.module.ts.
use vault_api.Prelude.{
  ℕ, ◌*◌, String, Bool, ◌||◌, Option, none, some, ◌==◌, ◌!=◌, string_eq, option_eq,
}
use vault_api.Users.Entity.{present}

pub record DatabaseConfig : Type 0 where
  pub url : String
  pub host : String
  pub port : Option ℕ
  pub username : String
  pub password : String
  pub name : String
  pub ssl : Bool

pub record JwtConfig : Type 0 where
  pub secret : String
  pub expires_in : String
  pub refresh_secret : String
  pub refresh_expires_in : String

pub record ThrottleConfig : Type 0 where
  pub ttl : Option ℕ
  pub limit : Option ℕ

pub record Configuration : Type 0 where
  pub port : Option ℕ
  pub node_env : String
  pub app_name : String
  pub database : DatabaseConfig
  pub jwt : JwtConfig
  pub throttle : ThrottleConfig

module _ (parse_int : String → Option ℕ) (env : String → Option String) where
  -- `process.env.NAME ?? fallback`
  abbrev env_or : String → String → String
  env_or name fallback = elim (env name) [ none ↦ fallback | some value ↦ value ]

  unfoldable pub configuration : Configuration
  configuration = record {
    port = parse_int (env_or "PORT" "3000");
    node_env = env_or "NODE_ENV" "development";
    app_name = env_or "APP_NAME" "FintechAPI";
    database = record {
      url = env_or "DATABASE_URL" "";
      host = env_or "DB_HOST" "localhost";
      port = parse_int (env_or "DB_PORT" "5432");
      username = env_or "DB_USERNAME" "postgres";
      password = env_or "DB_PASSWORD" "";
      name = env_or "DB_NAME" "vault-api";
      ssl =
          env "DB_SSL" == some "true"
          || env "SUPABASE_SSL" == some "true"
          || env "NODE_ENV" == some "production";
    };
    jwt = record {
      secret = env_or "JWT_SECRET" "change_me_in_production";
      expires_in = env_or "JWT_EXPIRES_IN" "15m";
      refresh_secret = env_or "JWT_REFRESH_SECRET" "change_refresh_secret";
      refresh_expires_in = env_or "JWT_REFRESH_EXPIRES_IN" "7d";
    };
    throttle = record {
      ttl = parse_int (env_or "THROTTLE_TTL" "60");
      limit = parse_int (env_or "THROTTLE_LIMIT" "10");
    };
  }

pub data Connection : Type 0 where
  by_url : String → Connection
  by_fields : String → Option ℕ → (username password database : String) → Connection

-- The options of TypeORM; `ssl` is on with `rejectUnauthorized: false`.
pub record DatabaseOptions : Type 0 where
  pub connection : Connection
  pub synchronize : Bool
  pub migrations_run : Bool
  pub logging : Bool
  pub ssl : Bool

unfoldable pub database_options : Configuration → DatabaseOptions
database_options c = record {
  connection = elim (present (some c.database.url)) [
    | some url ↦ by_url url
    | none ↦
        by_fields c.database.host c.database.port c.database.username c.database.password
          c.database.name
  ];
  synchronize = c.node_env == "development";
  migrations_run = c.node_env != "development";
  logging = c.node_env == "development";
  ssl = c.database.ssl;
}

-- Requests, and milliseconds.
pub record Limit : Type 0 where
  pub limit : ℕ
  pub ttl : ℕ

-- The options of the throttler, where both are numbers.
unfoldable pub throttler_options : Configuration → Option Limit
throttler_options c = elim c.throttle.limit [
  | none ↦ none
  | some limit ↦ elim c.throttle.ttl [
    | none ↦ none
    | some ttl ↦ some (record { limit = limit; ttl = ttl * 1000 })
  ]
]
