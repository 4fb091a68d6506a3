-- ===== src/Parser/Progress.antt =====
-- src/resp_parser.cpp: a complete value takes some of the bytes that it was read from.
use redis_proxy.Base.{
  ℕ, ◌≤◌, ◌<◌, ◌≡◌, refl, Bool, true, false, List, take, length, length-take, arith,
}
use redis_proxy.Parser.{
  Resp, RespLimits, RespStatus, settle, error_if_long, need_more_if_full, max_slots,
}
use redis_proxy.Parser.Arena.{unpack_at_once}

-- A complete value has some of the bytes that were given.
abbrev pub Consumes : {Value : Type 0} → Resp Value → Type 0
Consumes resp =
    (input : List ℕ) (slots : ℕ) (limits : RespLimits)
    → (resp.unpack_one input slots limits).status ≡ RespStatus.k_ok
    → (0 < (resp.unpack_one input slots limits).consumed)
      × ((resp.unpack_one input slots limits).consumed ≤ length input)

settled-ok :
    (long : Bool) (st : RespStatus)
    → error_if_long long (need_more_if_full st) ≡ RespStatus.k_ok
    → st ≡ RespStatus.k_ok
settled-ok long RespStatus.k_ok e = refl
settled-ok true RespStatus.k_need_more e = absurd (cc e)
settled-ok false RespStatus.k_need_more e = absurd (cc e)
settled-ok true RespStatus.k_no_memory e = absurd (cc e)
settled-ok false RespStatus.k_no_memory e = absurd (cc e)
settled-ok true RespStatus.k_error e = absurd (cc e)
settled-ok false RespStatus.k_error e = absurd (cc e)

module _ {Value : Type 0} (resp : Resp Value) (alloc : ℕ → Bool) (limits : RespLimits)
    (max_frame_bytes : ℕ) where
  pub unpack_at_once-Consumes :
      (text : List ℕ)
      → Consumes resp
      → (unpack_at_once resp alloc limits max_frame_bytes text).status ≡ RespStatus.k_ok
      → (0 < (unpack_at_once resp alloc limits max_frame_bytes text).consumed)
        × ((unpack_at_once resp alloc limits max_frame_bytes text).consumed ≤ length text)
  unfolding unpack_at_once settle
  unpack_at_once-Consumes text consumes e =
      let cut = take max_frame_bytes text in
      let (more, few) = consumes cut (max_slots cut) limits (settled-ok _ _ e) in
      (more, omega (arith, few, length-take max_frame_bytes text))
