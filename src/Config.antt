-- ===== src/Config.antt =====
-- src/config.cpp and include/redis_proxy/config.h. Fallible functions return `none` for `false`. What the
-- C library, the file system and `conn_util::Endpoint` do is a `Host`.
pub mod Range
use redis_proxy.Base.{
  ℕ, zero, suc, ◌*◌, ◌^◌, Bool, true, false, ◌&&◌, ◌||◌, not, List, [], ◌∷◌, Option, none, some,
  codes, ◌==◌, ltb, leb, if◌then◌else◌,
}
use redis_proxy.Rules.Bytes.{bytes_eq}

pub record Host (Endpoint : Type 0) : Type 0 where
  -- `Endpoint::parse`.
  pub parse : List ℕ → Option Endpoint
  -- `strtoull(s, &end, 10)`: the value, and the text at `end`.
  pub strtoull : List ℕ → ℕ × List ℕ
  -- `strtol(s, &end, 10)`: whether the value is negative, its magnitude, and the text at `end`.
  pub strtol : List ℕ → Bool × ℕ × List ℕ
  -- The lines of a file that can be opened, as `getline` gives them.
  pub open_lines : List ℕ → Option (List (List ℕ))
  -- `Endpoint("127.0.0.1", port)`.
  pub local_endpoint : ℕ → Endpoint

-- The `int` fields hold what `ParseInt` gave or a default, neither of which is negative.
pub record Config (Endpoint : Type 0) : Type 0 where
  pub listen : Endpoint
  pub redis : Endpoint
  pub workers : ℕ
  pub backend_conns_per_worker : ℕ
  pub max_request_bytes : ℕ
  pub max_bulk_bytes : ℕ
  pub max_array_elements : ℕ
  pub max_pipeline_commands_per_read : ℕ
  pub connect_timeout_ms : ℕ
  pub read_timeout_ms : ℕ
  pub write_timeout_ms : ℕ

abbrev pub no_text : List ℕ → Bool
no_text [] = true
no_text (c ∷ cs) = false

-- `" \t\r\n"`.
unfoldable pub is_blank : ℕ → Bool
is_blank c = c == 32 || c == 9 || c == 13 || c == 10

unfoldable pub trim_front : List ℕ → List ℕ
unfolding is_blank
trim_front [] = []
trim_front (c ∷ cs) = let rest = trim_front cs in if is_blank c then rest else c ∷ cs

unfoldable pub trim_back : List ℕ → List ℕ
unfolding is_blank
trim_back [] = []
trim_back (c ∷ cs) = let rest = trim_back cs in if is_blank c && no_text rest then [] else c ∷ rest

unfoldable pub trim : List ℕ → List ℕ
unfolding trim_front trim_back
trim s = trim_back (trim_front s)

-- The text before and after the first `=`.
unfoldable pub split_at_eq : List ℕ → Option (List ℕ × List ℕ)
split_at_eq [] = none
split_at_eq (c ∷ cs) =
    let rest = split_at_eq cs in
    if c == b'=' then some ([], cs) else elim rest [ none ↦ none | some (k, v) ↦ some (c ∷ k, v) ]

-- `max_int` is the bound of `ParseInt`.
abbrev pub max_int : ℕ
max_int = 1000000

module _ {Endpoint : Type 0} (host : Host Endpoint) where
  unfoldable pub default_config : Config Endpoint
  default_config = record {
    listen = host.local_endpoint 6379;
    redis = host.local_endpoint 6380;
    workers = 1;
    backend_conns_per_worker = 1;
    max_request_bytes = 512 * 1024 * 1024;
    max_bulk_bytes = 512 * 1024 * 1024;
    max_array_elements = 1024 * 1024;
    max_pipeline_commands_per_read = 1024 * 1024;
    connect_timeout_ms = 5000;
    read_timeout_ms = 30000;
    write_timeout_ms = 30000;
  }

  unfoldable pub parse_size : List ℕ → Option ℕ
  parse_size value =
      let (parsed, rest) = host.strtoull value in if no_text rest then some parsed else none

  unfoldable pub parse_int : List ℕ → Option ℕ
  parse_int value =
      let (negative, parsed, rest) = host.strtol value in
      if not (no_text rest) || negative && not (parsed == 0) || ltb max_int parsed
      then none
      else some parsed

  -- A parsed value put into its field.
  unfoldable pub put : {A : Type 0} → (A → Config Endpoint) → Option A → Option (Config Endpoint)
  put field none = none
  put field (some v) = some (field v)

  unfoldable pub apply : Config Endpoint → List ℕ → List ℕ → Option (Config Endpoint)
  unfolding put parse_int parse_size
  apply cfg key value =
      if bytes_eq key (codes "listen")
      then put (λ v. record cfg { listen = v }) (host.parse value)
      else (if bytes_eq key (codes "redis")
          then put (λ v. record cfg { redis = v }) (host.parse value)
          else (if bytes_eq key (codes "workers")
              then put (λ v. record cfg { workers = v }) (parse_int value)
              else (if bytes_eq key (codes "backend_conns_per_worker")
                  then put (λ v. record cfg { backend_conns_per_worker = v }) (parse_int value)
                  else (if bytes_eq key (codes "max_request_bytes")
                      then put (λ v. record cfg { max_request_bytes = v }) (parse_size value)
                      else (if bytes_eq key (codes "max_bulk_bytes")
                          then put (λ v. record cfg { max_bulk_bytes = v }) (parse_size value)
                          else (if bytes_eq key (codes "max_array_elements")
                              then put (λ v. record cfg { max_array_elements = v })
                                  (parse_size value)
                              else (if bytes_eq key (codes "max_pipeline_commands_per_read")
                                  then put (λ v. record cfg { max_pipeline_commands_per_read = v })
                                      (parse_size value)
                                  else (if bytes_eq key (codes "connect_timeout_ms")
                                      then put (λ v. record cfg { connect_timeout_ms = v })
                                          (parse_int value)
                                      else (if bytes_eq key (codes "read_timeout_ms")
                                          then put (λ v. record cfg { read_timeout_ms = v })
                                              (parse_int value)
                                          else (if bytes_eq key (codes "write_timeout_ms")
                                              then put (λ v. record cfg { write_timeout_ms = v })
                                                  (parse_int value)
                                              else none))))))))))

  unfoldable pub validate_config : Config Endpoint → Bool
  validate_config c =
      if c.workers == 0
      then false
      else (if c.backend_conns_per_worker == 0 || ltb 4 c.backend_conns_per_worker
          then false
          else (if c.max_request_bytes == 0
                || c.max_bulk_bytes == 0
                || c.max_array_elements == 0
                || c.max_pipeline_commands_per_read == 0
              then false
              else true))

  -- A line of the file: nothing to do, or a key and a value to apply.
  unfoldable pub load_pair : Config Endpoint → Option (List ℕ × List ℕ) → Option (Config Endpoint)
  unfolding apply trim
  load_pair cfg none = none
  load_pair cfg (some (k, v)) = apply cfg (trim k) (trim v)

  unfoldable pub load_line : Config Endpoint → List ℕ → Option (Config Endpoint)
  unfolding load_pair split_at_eq
  load_line cfg [] = some cfg
  load_line cfg (c ∷ cs) = if c == b'#' then some cfg else load_pair cfg (split_at_eq (c ∷ cs))

  unfoldable pub load_lines : List (List ℕ) → Option (Config Endpoint) → Option (Config Endpoint)
  unfolding load_line trim
  load_lines ls none = none
  load_lines [] (some cfg) = some cfg
  load_lines (l ∷ ls) (some cfg) = load_lines ls (load_line cfg (trim l))

  abbrev pub if_valid : Option (Config Endpoint) → Option (Config Endpoint)
  if_valid none = none
  if_valid (some cfg) = if validate_config cfg then some cfg else none

  unfoldable pub load_opened : Config Endpoint → Option (List (List ℕ)) → Option (Config Endpoint)
  unfolding load_lines validate_config
  load_opened cfg none = none
  load_opened cfg (some ls) = if_valid (load_lines ls (some cfg))

  unfoldable pub load_config_file : Config Endpoint → List ℕ → Option (Config Endpoint)
  unfolding load_opened
  load_config_file cfg path = load_opened cfg (host.open_lines path)

  unfoldable pub load_arg : Config Endpoint → List ℕ → List ℕ → Option (Config Endpoint)
  unfolding load_config_file put parse_int
  load_arg cfg arg value =
      if bytes_eq arg (codes "--config")
      then load_config_file cfg value
      else (if bytes_eq arg (codes "--listen")
          then put (λ v. record cfg { listen = v }) (host.parse value)
          else (if bytes_eq arg (codes "--redis")
              then put (λ v. record cfg { redis = v }) (host.parse value)
              else (if bytes_eq arg (codes "--workers")
                  then put (λ v. record cfg { workers = v }) (parse_int value)
                  else (if bytes_eq arg (codes "--backend-conns")
                      then put (λ v. record cfg { backend_conns_per_worker = v }) (parse_int value)
                      else none))))

  -- The loop over `argv`. An option without a value fails, whatever it is.
  unfoldable pub load_args : List (List ℕ) → Option (Config Endpoint) → Option (Config Endpoint)
  unfolding load_arg
  load_args more none = none
  load_args [] (some cfg) = some cfg
  load_args (a ∷ []) (some cfg) = none
  load_args (a ∷ v ∷ more) (some cfg) = load_args more (load_arg cfg a v)

  -- `LoadConfigFromArgs` without the program's name: what is written to `out`, if it succeeds.
  unfoldable pub load_config_from_args : List (List ℕ) → Option (Config Endpoint)
  unfolding load_args default_config validate_config
  load_config_from_args args = if_valid (load_args args (some default_config))
