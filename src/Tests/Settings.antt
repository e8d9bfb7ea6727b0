-- ===== src/Tests/Settings.antt =====
-- An environment that sets the secret of the tokens and nothing else.
use api_example.Prelude.{◌≡◌, refl, true, none, [], ◌++◌, if◌then◌else◌}
use api_example.Prelude.Int.{pos}
use api_example.Text.{Text, text, text_eq}
use api_example.Exec.{ok, err}
use api_example.Domain.Pagination.{to_int32}
use api_example.Config.{Config, Environ, Libraries}
use api_example.Config.Load.{Values, config_of, load}
use api_example.Config.Read.{IsRead}
use api_example.Config.Valid.{IsValid, load-IsValid}
use api_example.Tests.Fixtures.{down}

abbrev libraries : Libraries
libraries = record {
  load_dotenv = λ e. e;
  parse_bool = λ t. err down;
  number_error = λ t. down;
  parse_duration = λ t. none;
  parse_url = λ t. none;
}

abbrev sixteen : Text
sixteen = text "0123456789abcdef"

abbrev settings : Environ
settings key = if text_eq key (text "JWT_SECRET") then sixteen ++ sixteen else []

abbrev values : Values
values = record {
  app_debug = true;
  db_port = pos 5432;
  max_open = pos 25;
  max_idle = pos 5;
  conn_lifetime = pos 300000000000;
  redis_db = pos 0;
  max_attempts = pos 3;
  access_expiry = pos 28800000000000;
  refresh_expiry = pos 2592000000000000;
  max_upload = pos 10485760;
  path_style = true;
}

loads : load libraries settings ≡ (ok (config_of values settings), settings)
unfolding load api_example.Config.Load.read_values api_example.Config.Load.env_bool
    api_example.Text.trim_space text_eq text api_example.Config.Load.env_int
    api_example.Config.Load.env_duration api_example.Config.Check.validate config_of to_int32
    api_example.Config.Load.env_list api_example.Config.Check.validate_storage
    api_example.Config.Load.env
loads = refl

-- A pool of 2^32 + 1 connections is one of a single connection.
wraps : to_int32 (pos 4294967297) ≡ pos 1
unfolding to_int32
wraps = refl

load-IsValid_example :
    IsValid libraries (config_of values settings)
    × IsRead libraries settings (config_of values settings)
    × (settings ≡ settings)
load-IsValid_example = load-IsValid libraries settings settings (config_of values settings) loads
