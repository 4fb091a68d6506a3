-- ===== src/Config/Range.antt =====
-- src/config.cpp: the values of a configuration that was loaded.
use redis_proxy.Base.{
  ℕ, ◌≤◌, ◌<◌, ◌≡◌, inl, inr, refl, subst, Bool, true, false, ◌&&◌, ◌||◌, not, List, [], ◌∷◌,
  Option, none, some, arith, codes, ◌==◌, ltb, if◌then◌else◌, Bool-cases,
}
use redis_proxy.Rules.Bytes.{bytes_eq}
use redis_proxy.Config.{
  Host, Config, default_config, parse_int, parse_size, put, apply, validate_config, load_pair,
  load_line, load_lines, load_opened, if_valid, load_config_file, load_arg, load_args,
  load_config_from_args, no_text, max_int, trim, split_at_eq,
}

-- The integers that `ParseInt` bounds.
pub record SmallInts (workers connect read write : ℕ) : Type 0 where
  pub workers_small : workers ≤ max_int
  pub connect_small : connect ≤ max_int
  pub read_small : read ≤ max_int
  pub write_small : write ≤ max_int

abbrev pub Small : {Endpoint : Type 0} → Config Endpoint → Type 0
Small c = SmallInts c.workers c.connect_timeout_ms c.read_timeout_ms c.write_timeout_ms

-- What `ValidateConfig` and `ParseInt` let through.
pub record InRange {Endpoint : Type 0} (c : Config Endpoint) : Type 0 where
  pub small : Small c
  pub some_workers : 0 < c.workers
  pub some_conns : 0 < c.backend_conns_per_worker
  pub few_conns : c.backend_conns_per_worker ≤ 4
  pub some_request_bytes : 0 < c.max_request_bytes
  pub some_bulk_bytes : 0 < c.max_bulk_bytes
  pub some_elements : 0 < c.max_array_elements
  pub some_commands : 0 < c.max_pipeline_commands_per_read

-- What holds of a result, if there is one.
abbrev Gives : {A : Type 0} → (A → Type 0) → Option A → Type 0
Gives P o = (a : _) → o ≡ some a → P a

if-Gives :
    {A : Type 0} (P : A → Type 0) (b : Bool) (x y : Option A)
    → Gives P x
    → Gives P y
    → Gives P (if b then x else y)
if-Gives P true x y h k = h
if-Gives P false x y h k = k

Gives-none : {A : Type 0} (P : A → Type 0) → Gives P none
Gives-none P a e = absurd (cc e)

some-injective : {A : Type 0} (a b : A) → some a ≡ some b → a ≡ b
some-injective a b e = cc

Gives-some : {A : Type 0} (P : A → Type 0) (a : A) → P a → Gives P (some a)
Gives-some P a p b e = subst P (some-injective a b e) p

in_bound : (a b : Bool) (n : ℕ) → (a || b || ltb max_int n) ≡ false → n ≤ max_int
in_bound a b n t = ground arith

module _ {Endpoint : Type 0} (host : Host Endpoint) where
  parse_int-small : (value : List ℕ) → Gives (λ v. v ≤ max_int) (parse_int host value)
  unfolding parse_int
  parse_int-small value v e =
      elim (Bool-cases (
        not (no_text (host.strtol value).2)
        || (host.strtol value).0 && not ((host.strtol value).1 == 0)
        || ltb max_int (host.strtol value).1)) [
          | inl t ↦ absurd (cc (rw t at e))
          | inr t ↦
              let same : (host.strtol value).1 ≡ v = cc (rw t at e) in
              omega (
                arith,
                same,
                in_bound (not (no_text (host.strtol value).2))
                    ((host.strtol value).0 && not ((host.strtol value).1 == 0))
                    (host.strtol value).1 t,
              )
        ]

  put-Gives :
      {A : Type 0} (P : A → Type 0) (field : A → Config Endpoint) (o : Option A)
      → Gives P o
      → ((v : A) → P v → Small (field v))
      → Gives Small (put host field o)
  unfolding put
  put-Gives P field none g h = Gives-none Small
  put-Gives P field (some v) g h = Gives-some Small (field v) (h v (g v refl))

  apply-Small :
      (cfg : Config Endpoint) (key value : List ℕ)
      → Small cfg
      → Gives Small (apply host cfg key value)
  unfolding apply
  apply-Small cfg key value s =
      if-Gives Small (bytes_eq key (codes "listen")) _ _
        (any (λ v. record cfg { listen = v }) (host.parse value) (λ v. s))
        (if-Gives Small (bytes_eq key (codes "redis")) _ _
          (any (λ v. record cfg { redis = v }) (host.parse value) (λ v. s))
          (if-Gives Small (bytes_eq key (codes "workers")) _ _
            (number (λ v. record cfg { workers = v })
              (λ v h. record {
                workers_small = h;
                connect_small = s.connect_small;
                read_small = s.read_small;
                write_small = s.write_small;
              }))
            (if-Gives Small (bytes_eq key (codes "backend_conns_per_worker")) _ _
              (number (λ v. record cfg { backend_conns_per_worker = v }) (λ v h. s))
              (if-Gives Small (bytes_eq key (codes "max_request_bytes")) _ _
                (any (λ v. record cfg { max_request_bytes = v }) (parse_size host value) (λ v. s))
                (if-Gives Small (bytes_eq key (codes "max_bulk_bytes")) _ _
                  (any (λ v. record cfg { max_bulk_bytes = v }) (parse_size host value) (λ v. s))
                  (if-Gives Small (bytes_eq key (codes "max_array_elements")) _ _
                    (any (λ v. record cfg { max_array_elements = v }) (parse_size host value)
                      (λ v. s))
                    (if-Gives Small (bytes_eq key (codes "max_pipeline_commands_per_read")) _ _
                      (any (λ v. record cfg { max_pipeline_commands_per_read = v })
                        (parse_size host value) (λ v. s))
                      (if-Gives Small (bytes_eq key (codes "connect_timeout_ms")) _ _
                        (number (λ v. record cfg { connect_timeout_ms = v })
                          (λ v h. record {
                            workers_small = s.workers_small;
                            connect_small = h;
                            read_small = s.read_small;
                            write_small = s.write_small;
                          }))
                        (if-Gives Small (bytes_eq key (codes "read_timeout_ms")) _ _
                          (number (λ v. record cfg { read_timeout_ms = v })
                            (λ v h. record {
                              workers_small = s.workers_small;
                              connect_small = s.connect_small;
                              read_small = h;
                              write_small = s.write_small;
                            }))
                          (if-Gives Small (bytes_eq key (codes "write_timeout_ms")) _ _
                            (number (λ v. record cfg { write_timeout_ms = v })
                              (λ v h. record {
                                workers_small = s.workers_small;
                                connect_small = s.connect_small;
                                read_small = s.read_small;
                                write_small = h;
                              }))
                            (Gives-none Small)))))))))))
    where
      any :
          {A : Type 0} (field : A → Config Endpoint) (o : Option A)
          → ((v : A) → Small (field v))
          → Gives Small (put host field o)
      any field o h = put-Gives (λ v. Unit {0}) field o (λ v e. tt) (λ v u. h v)

      number :
          (field : ℕ → Config Endpoint)
          → ((v : ℕ) → v ≤ max_int → Small (field v))
          → Gives Small (put host field (parse_int host value))
      number field h =
          put-Gives (λ v. v ≤ max_int) field (parse_int host value) (parse_int-small value) h

  valid-InRange : (c : Config Endpoint) → Small c → validate_config host c ≡ true → InRange c
  unfolding validate_config
  valid-InRange c s h = record {
    small = s;
    some_workers = ground arith;
    some_conns = ground arith;
    few_conns = ground arith;
    some_request_bytes = ground arith;
    some_bulk_bytes = ground arith;
    some_elements = ground arith;
    some_commands = ground arith;
  }

  if_valid-InRange :
      (o : Option (Config Endpoint)) → Gives Small o → Gives InRange (if_valid host o)
  if_valid-InRange none g = Gives-none InRange
  if_valid-InRange (some d) g = elim (Bool-cases (validate_config host d)) [
    | inl h ↦ rw h (Gives-some InRange d (valid-InRange d (g d refl) h))
    | inr h ↦ rw h (Gives-none InRange)
  ]

  load_line-Small :
      (cfg : Config Endpoint) (l : List ℕ) → Small cfg → Gives Small (load_line host cfg l)
  unfolding load_line load_pair
  load_line-Small cfg [] s = Gives-some Small cfg s
  load_line-Small cfg (b ∷ bs) s =
      if-Gives Small (b == b'#') _ _ (Gives-some Small cfg s) (pair (split_at_eq (b ∷ bs)))
    where
      pair : (o : Option (List ℕ × List ℕ)) → Gives Small (load_pair host cfg o)
      pair none = Gives-none Small
      pair (some (k, v)) = apply-Small cfg (trim k) (trim v) s

  load_lines-Small :
      (ls : List (List ℕ)) (o : Option (Config Endpoint))
      → Gives Small o
      → Gives Small (load_lines host ls o)
  unfolding load_lines
  load_lines-Small [] none g = Gives-none Small
  load_lines-Small (l ∷ ls) none g = Gives-none Small
  load_lines-Small [] (some cfg) g = g
  load_lines-Small (l ∷ ls) (some cfg) g =
      load_lines-Small ls (load_line host cfg (trim l)) (load_line-Small cfg (trim l) (g cfg refl))

  load_opened-Small :
      (cfg : Config Endpoint) (o : Option (List (List ℕ)))
      → Small cfg
      → Gives InRange (load_opened host cfg o)
  unfolding load_opened
  load_opened-Small cfg none s = Gives-none InRange
  load_opened-Small cfg (some ls) s =
      if_valid-InRange (load_lines host ls (some cfg))
        (load_lines-Small ls (some cfg) (Gives-some Small cfg s))

  load_arg-Small :
      (cfg : Config Endpoint) (arg value : List ℕ)
      → Small cfg
      → Gives Small (load_arg host cfg arg value)
  unfolding load_arg load_config_file
  load_arg-Small cfg arg value s =
      if-Gives Small (bytes_eq arg (codes "--config")) _ _
        (λ c e. (load_opened-Small cfg (host.open_lines value) s c e).small)
        (if-Gives Small (bytes_eq arg (codes "--listen")) _ _
          (put-Gives (λ v. Unit {0}) (λ v. record cfg { listen = v }) (host.parse value) (λ v e. tt)
            (λ v u. s))
          (if-Gives Small (bytes_eq arg (codes "--redis")) _ _
            (put-Gives (λ v. Unit {0}) (λ v. record cfg { redis = v }) (host.parse value)
              (λ v e. tt) (λ v u. s))
            (if-Gives Small (bytes_eq arg (codes "--workers")) _ _
              (put-Gives (λ v. v ≤ max_int) (λ v. record cfg { workers = v }) (parse_int host value)
                (parse_int-small value)
                (λ v h. record {
                  workers_small = h;
                  connect_small = s.connect_small;
                  read_small = s.read_small;
                  write_small = s.write_small;
                }))
              (if-Gives Small (bytes_eq arg (codes "--backend-conns")) _ _
                (put-Gives (λ v. v ≤ max_int) (λ v. record cfg { backend_conns_per_worker = v })
                  (parse_int host value) (parse_int-small value) (λ v h. s))
                (Gives-none Small)))))

  load_args-Small :
      (args : List (List ℕ)) (o : Option (Config Endpoint))
      → Gives Small o
      → Gives Small (load_args host args o)
  unfolding load_args
  load_args-Small [] none g = Gives-none Small
  load_args-Small (a ∷ more) none g = Gives-none Small
  load_args-Small [] (some cfg) g = g
  load_args-Small (a ∷ []) (some cfg) g = Gives-none Small
  load_args-Small (a ∷ v ∷ more) (some cfg) g =
      load_args-Small more (load_arg host cfg a v) (load_arg-Small cfg a v (g cfg refl))

  -- Whatever the C library and `Endpoint` answer, a configuration that `LoadConfigFromArgs` lets through has
  -- between 1 and 1000000 workers, 1 to 4 connections for each, timeouts of at most 1000000 ms, and limits
  -- that are positive.
  pub load_config_from_args-InRange :
      (args : List (List ℕ)) (c : Config Endpoint)
      → load_config_from_args host args ≡ some c
      → InRange c
  unfolding load_config_from_args default_config
  load_config_from_args-InRange args =
      if_valid-InRange (load_args host args (some (default_config host))) (
        load_args-Small args (some (default_config host))
          (Gives-some Small (default_config host) small_default))
    where
      small_default : Small (default_config host)
      small_default = record {
        workers_small = omega arith;
        connect_small = omega arith;
        read_small = omega arith;
        write_small = omega arith;
      }
