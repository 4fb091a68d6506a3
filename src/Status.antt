-- ===== src/Status.antt =====
-- include/redis_proxy/status.h: a code and a message.
use redis_proxy.Base.{Bool, true, false, List, [], ℕ}

pub data StatusCode : Type 0 where
  k_ok k_invalid_argument k_io_error k_protocol_error k_closed : StatusCode

pub record Status : Type 0 where
  pub code : StatusCode
  pub message : List ℕ

abbrev pub status_ok : Status
status_ok = record { code = StatusCode.k_ok; message = [] }

abbrev pub invalid_argument : List ℕ → Status
invalid_argument m = record { code = StatusCode.k_invalid_argument; message = m }

abbrev pub io_error : List ℕ → Status
io_error m = record { code = StatusCode.k_io_error; message = m }

abbrev pub protocol_error : List ℕ → Status
protocol_error m = record { code = StatusCode.k_protocol_error; message = m }

abbrev pub closed : List ℕ → Status
closed m = record { code = StatusCode.k_closed; message = m }

abbrev pub is_ok : Status → Bool
is_ok s = elim (s.code) [ StatusCode.k_ok ↦ true | _ ↦ false ]
