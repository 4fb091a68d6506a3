-- ===== src/Parser/Arena.antt =====
-- src/resp_parser.cpp, `unpack`: the loop that grows the arena ends, and what it gives.
use redis_proxy.Base.{
  ℕ, ◌≤◌, ◌<◌, ◌≡◌, inl, inr, sym, ap, subst, ◌∙◌, Bool, true, false, List, some, arith, length,
  length-take, take,
}
use redis_proxy.Parser.{
  Resp, RespResult, RespStatus, RespParser, RespLimits, max_slots, settle, unpack, is_no_memory,
}
use redis_proxy.Parser.Growth.{Answer, starved, answered, Unpacked, unpack_cut-Ends}
use redis_proxy.Parser.Settling.{settle-need_more, settle-no_memory}

module _ {Value : Type 0} (resp : Resp Value) (alloc : ℕ → Bool) where
  -- `unpack` returns, whatever the library answers, and keeps the limits. The arena has not shrunk, and if it has
  -- grown, then to no more than the slots that the cut input can fill. The result is the answer of the library
  -- for the cut input with this arena, settled, which was not for lack of slots unless the arena had as many
  -- as the input can fill; or it is "no memory" because the allocation of a larger arena failed.
  pub unpack-Unpacked :
      (p : RespParser) (input : List ℕ)
      → (r : RespResult Value × RespParser) × (unpack resp alloc p input ≡ some r)
        × Unpacked resp alloc p (take p.max_frame_bytes input) r
  unfolding unpack
  unpack-Unpacked p input = unpack_cut-Ends resp alloc p (take p.max_frame_bytes input)

  -- What the library documents: with more slots than it needed it gives the same answer.
  abbrev pub Stable : Type 0
  Stable =
      (input : List ℕ) (limits : RespLimits) (a b : ℕ)
      → a ≤ b
      → is_no_memory (resp.unpack_one input a limits).status ≡ false
      → resp.unpack_one input b limits ≡ resp.unpack_one input a limits

  -- One call with an arena as large as the input can fill.
  unfoldable pub unpack_at_once : RespLimits → ℕ → List ℕ → RespResult Value
  unpack_at_once limits max_frame_bytes input =
      let cut = take max_frame_bytes input in
      settle resp alloc max_frame_bytes cut (resp.unpack_one cut (max_slots cut) limits)

  -- If the answer of the library does not depend on spare slots and every allocation succeeds, `unpack` gives
  -- what one call with the largest arena gives, whatever the arena was before, and keeps the limits.
  pub unpack-unpack_at_once :
      Stable
      → ((n : ℕ) → alloc n ≡ true)
      → (p : RespParser) (input : List ℕ)
      → (q : RespParser) × (unpack resp alloc p input
          ≡ some (unpack_at_once p.limits p.max_frame_bytes input, q))
        × (q.limits ≡ p.limits)
        × (q.max_frame_bytes ≡ p.max_frame_bytes)
  unfolding unpack_at_once
  unpack-unpack_at_once stable room p input =
      let (r, e, u) = unpack-Unpacked p input in
      (
        r.1,
        e ∙ ap (λ x. some (x, r.1)) (same r.1.scratch r.0 u.answer),
        u.limits,
        u.max_frame_bytes,
      )
    where
      cut : List ℕ
      cut = take p.max_frame_bytes input

      same :
          (n : ℕ) (r : RespResult Value)
          → Answer resp alloc p.limits p.max_frame_bytes n cut r
          → r ≡ unpack_at_once p.limits p.max_frame_bytes input
      same m r (starved n refused more le e) = absurd (cc (refused, room n))
      same m r (answered slots pos le (inr full) e) =
          e
          ∙ ap (λ k. settle resp alloc p.max_frame_bytes cut (resp.unpack_one cut k p.limits)) full
      same m r (answered slots pos le (inl fits) e) =
          e
          ∙ ap (settle resp alloc p.max_frame_bytes cut)
              (sym (stable cut p.limits slots (max_slots cut) (omega (arith, le)) fits))

  -- A result of `unpack` asks for more input only if the input is shorter than the limit of a frame, and
  -- it is "no memory" only if an allocation failed, never for a frame that is too long.
  pub unpack_limited :
      (p : RespParser) (input : List ℕ) (r : RespResult Value × RespParser)
      → unpack resp alloc p input ≡ some r
      → (r.0.status ≡ RespStatus.k_need_more → length input < p.max_frame_bytes)
        × (r.0.status ≡ RespStatus.k_no_memory → (n : ℕ) × (alloc n ≡ false))
  unpack_limited p input r e =
      let (r', e', u) = unpack-Unpacked p input in
      let same : r' ≡ r = cc (e, e') in
      limited r (
        subst
          (λ x.
            Answer resp alloc p.limits p.max_frame_bytes x.1.scratch (take p.max_frame_bytes input)
              x.0)
          same u.answer)
    where
      limited :
          (r : RespResult Value × RespParser)
          → Answer resp alloc p.limits p.max_frame_bytes r.1.scratch
              (take p.max_frame_bytes input)
              r.0
          → (r.0.status ≡ RespStatus.k_need_more → length input < p.max_frame_bytes)
            × (r.0.status ≡ RespStatus.k_no_memory → (n : ℕ) × (alloc n ≡ false))
      limited r (starved n refused more le e) =
          ((λ h. absurd (cc (h, ap (λ x. x.status) e))), (λ h. (n, refused)))
      limited r (answered slots pos le why e) = (
        (λ h. omega (
          arith,
          settle-need_more resp alloc p.max_frame_bytes (take p.max_frame_bytes input) _
              (ap (λ x. x.status) (sym e) ∙ h),
          length-take p.max_frame_bytes input,
        )),
        (λ h. absurd (
            settle-no_memory resp alloc p.max_frame_bytes (take p.max_frame_bytes input) _
              (ap (λ x. x.status) (sym e) ∙ h))),
      )
