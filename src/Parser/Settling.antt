-- ===== src/Parser/Settling.antt =====
-- src/resp_parser.cpp, `unpack`: the statuses that a settled answer can have.
use redis_proxy.Base.{
  ℕ, ◌<◌, ◌≡◌, ◌≢◌, inl, inr, Bool, true, false, List, arith, leb, length, Bool-cases,
}
use redis_proxy.Parser.{Resp, RespResult, RespStatus, settle, need_more_if_full, error_if_long}

module _ {Value : Type 0} (resp : Resp Value) (alloc : ℕ → Bool) where
  pub settle-need_more :
      (max_frame_bytes : ℕ) (input : List ℕ) (r : RespResult Value)
      → (settle resp alloc max_frame_bytes input r).status ≡ RespStatus.k_need_more
      → length input < max_frame_bytes
  unfolding settle
  settle-need_more max_frame_bytes input r e =
      elim (Bool-cases (leb max_frame_bytes (length input))) [
        | inr short ↦ ground (arith, short)
        | inl long ↦ absurd (never (need_more_if_full r.status) (rw long at e))
      ]
    where
      never : (st : RespStatus) → error_if_long true st ≡ RespStatus.k_need_more → ⊥
      never RespStatus.k_ok h = cc h
      never RespStatus.k_need_more h = cc h
      never RespStatus.k_no_memory h = cc h
      never RespStatus.k_error h = cc h

  pub settle-no_memory :
      (max_frame_bytes : ℕ) (input : List ℕ) (r : RespResult Value)
      → (settle resp alloc max_frame_bytes input r).status ≢ RespStatus.k_no_memory
  unfolding settle
  settle-no_memory max_frame_bytes input r = never (leb max_frame_bytes (length input)) r.status
    where
      never :
          (long : Bool) (st : RespStatus)
          → error_if_long long (need_more_if_full st) ≢ RespStatus.k_no_memory
      never true RespStatus.k_ok h = cc h
      never true RespStatus.k_need_more h = cc h
      never true RespStatus.k_no_memory h = cc h
      never true RespStatus.k_error h = cc h
      never false RespStatus.k_ok h = cc h
      never false RespStatus.k_need_more h = cc h
      never false RespStatus.k_no_memory h = cc h
      never false RespStatus.k_error h = cc h
