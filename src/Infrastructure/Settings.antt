-- ===== src/Infrastructure/Settings.antt =====
-- src/infrastructure/config/settings.py: the classes with the values that hold where the environment
-- sets none, and their properties. What reads the environment is the framework.
use banking_transaction_syst.Prelude.{ℕ, String, ◌<>◌, Bool, true, false}
use banking_transaction_syst.Prelude.Text.{show}

pub record DatabaseSettings : Type 0 where
  pub host : String
  pub port : ℕ
  pub db : String
  pub user : String
  pub password : String
  pub pool_size : ℕ
  pub max_overflow : ℕ

abbrev pub default_database : DatabaseSettings
default_database = record {
  host = "localhost";
  port = 5432;
  db = "banking_db";
  user = "banking_user";
  password = "banking_pass";
  pool_size = 10;
  max_overflow = 20;
}

-- `DatabaseSettings.url`
unfoldable pub database_url : DatabaseSettings → String
database_url s =
    "postgresql+asyncpg://"
    <> s.user
    <> ":"
    <> s.password
    <> "@"
    <> s.host
    <> ":"
    <> show s.port
    <> "/"
    <> s.db

pub record RedisSettings : Type 0 where
  pub host : String
  pub port : ℕ
  pub db : ℕ
  pub lock_ttl_seconds : ℕ

abbrev pub default_redis : RedisSettings
default_redis = record { host = "localhost"; port = 6379; db = 0; lock_ttl_seconds = 30 }

-- `RedisSettings.url`
unfoldable pub redis_url : RedisSettings → String
redis_url s = "redis://" <> s.host <> ":" <> show s.port <> "/" <> show s.db

pub record SecuritySettings : Type 0 where
  pub jwt_secret : String
  pub jwt_algorithm : String

-- The three values of `app_env`.
pub data AppEnv : Type 0 where
  development staging production : AppEnv

pub record Settings : Type 0 where
  pub app_env : AppEnv
  pub app_name : String
  pub app_version : String
  pub app_host : String
  pub app_port : ℕ
  pub debug : Bool
  pub database : DatabaseSettings
  pub redis : RedisSettings
  pub security : SecuritySettings

abbrev pub default_settings : Settings
default_settings = record {
  app_env = development;
  app_name = "banking-system";
  app_version = "0.1.0";
  app_host = "0.0.0.0";
  app_port = 8000;
  debug = false;
  database = default_database;
  redis = default_redis;
  security = record { jwt_secret = "dev-secret-change-in-production"; jwt_algorithm = "HS256" };
}

-- The properties `is_production` and `is_development`.
unfoldable pub is_production : Settings → Bool
is_production s = elim s.app_env [ production ↦ true | _ ↦ false ]

unfoldable pub is_development : Settings → Bool
is_development s = elim s.app_env [ development ↦ true | _ ↦ false ]
