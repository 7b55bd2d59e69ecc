-- ===== src/Config.antt =====
-- internal/config/config.go: the settings, from the environment. An environment gives the empty text
-- for a name that is not set; what godotenv has read from a file is in it.
use bank_system.Prelude.{String, str_eq, if◌then◌else◌}
use bank_system.Prelude.Int.{ℤ}
use bank_system.Errs.{plain}
use bank_system.External.{Result, ok, err}

pub record Config : Type 0 where
  pub database_url : String
  pub redis_url : String
  pub redis_password : String
  pub redis_db : ℤ
  pub port : String
  pub env : String
  pub jwt_secret : String
  pub cors_origin : String
  pub smtp_host : String
  pub smtp_port : String
  pub smtp_username : String
  pub smtp_password : String
  pub smtp_from : String

abbrev pub get_env : (String → String) → String → String → String
get_env environ key fallback = if str_eq (environ key) "" then fallback else environ key

-- `Load`, with what `strconv.Atoi` returns for a text, an error or not.
unfoldable pub load : (atoi : String → ℤ) → (environ : String → String) → Result Config
load atoi environ =
    let cfg : Config = record {
      database_url = get_env environ "DATABASE_URL" "";
      redis_url = get_env environ "REDIS_URL" "localhost:6379";
      redis_password = get_env environ "REDIS_PASSWORD" "";
      redis_db = atoi (get_env environ "REDIS_DB" "0");
      port = get_env environ "PORT" "8080";
      env = get_env environ "ENV" "development";
      jwt_secret = get_env environ "JWT_SECRET" "change-me-in-production";
      cors_origin = get_env environ "CORS_ORIGIN" "http://localhost:3000";
      smtp_host = get_env environ "SMTP_HOST" "smtp.gmail.com";
      smtp_port = get_env environ "SMTP_PORT" "587";
      smtp_username = get_env environ "SMTP_USERNAME" "";
      smtp_password = get_env environ "SMTP_PASSWORD" "";
      smtp_from = get_env environ "SMTP_FROM" "noreply@thevault.dev";
    } in
    if str_eq cfg.database_url "" then err (plain "DATABASE_URL is required") else ok cfg
