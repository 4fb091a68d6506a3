-- ===== src/Tests/Config.antt =====
-- A run of src/config.cpp, with a C library that reads numbers of one digit.
use redis_proxy.Base.{ℕ, ◌-◌, false, List, [], ◌∷◌, none, some, codes, ◌≡◌, refl}
use redis_proxy.Rules.Bytes.{bytes_eq}
use redis_proxy.Config.{
  Host, Config, default_config, parse_int, put, validate_config, load_arg, load_args,
  load_config_from_args,
}
use redis_proxy.Config.Range.{InRange, load_config_from_args-InRange}

abbrev one_digit : List ℕ → ℕ × List ℕ
one_digit [] = (0, [])
one_digit (c ∷ cs) = (c - 48, cs)

abbrev pub small_host : Host (List ℕ)
small_host = record {
  parse = λ s. some s;
  strtoull = one_digit;
  strtol = λ s. (false, (one_digit s).0, (one_digit s).1);
  open_lines = λ path. none;
  local_endpoint = λ port. port ∷ [];
}

abbrev pub arguments : List (List ℕ)
arguments = codes "--workers" ∷ codes "4" ∷ codes "--listen" ∷ codes "0.0.0.0:80" ∷ []

abbrev pub loaded : Config (List ℕ)
loaded = record (default_config small_host) { workers = 4; listen = codes "0.0.0.0:80" }

pub arguments-loaded : load_config_from_args small_host arguments ≡ some loaded
unfolding load_config_from_args load_args load_arg default_config validate_config put parse_int
    bytes_eq
arguments-loaded = refl

load_config_from_args-InRange_example : InRange loaded
load_config_from_args-InRange_example =
    load_config_from_args-InRange small_host arguments loaded arguments-loaded
