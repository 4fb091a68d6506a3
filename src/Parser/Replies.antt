-- ===== src/Parser/Replies.antt =====
-- src/resp_parser.cpp, `nextReplyFrame`: cutting a reply off the input.
use redis_proxy.Base.{
  ◌+◌, ◌^◌, ◌<◌, ◌≡◌, refl, ap, subst, ◌∙◌, inl, inr, Bool, true, false, none, some, take, drop,
  All, Bool-cases, ◌≤◌, arith, ℕ,
}
use redis_proxy.Buffer.Store.{Store}
use redis_proxy.Buffer.Chain.{Chain, to_string_for_test}
use redis_proxy.Buffer.IoBuffer.{IoBuffer, readable_view, slice_prefix, gather}
use redis_proxy.Buffer.IoBuffer.Valid.{Valid, Frame}
use redis_proxy.Buffer.Health.{count}
use redis_proxy.Buffer.IoBuffer.Reading.{readable_view-Shows}
use redis_proxy.Buffer.IoBuffer.References.{held, Inside}
use redis_proxy.Buffer.IoBuffer.Slicing.{slice_prefix-Slices}
use redis_proxy.Parser.{
  Resp, RespResult, RespParser, RespStatus, ParseStatus, Reply, convert, is_ok, cut_reply, replied,
  next_reply_frame,
}
use redis_proxy.Parser.Commands.{is_ok-eq}
use redis_proxy.Parser.Arena.{Stable, unpack_at_once, unpack-unpack_at_once}

-- The outcome of `nextReplyFrame` on a buffer, given the answer of the library for its readable bytes: a
-- reply is cut off as a chain of its bytes, or nothing is taken.
pub data Cuts {Value : Type 0} (r : RespResult Value) (b : IoBuffer) (other : ℕ → ℕ) (s : Store)
    (y : Reply) : Type 0 where
  cut :
      (c : Chain)
      → r.status ≡ RespStatus.k_ok
      → y.status ≡ ParseStatus.k_ok
      → y.frame ≡ some (c, r.consumed)
      → to_string_for_test y.store c ≡ take r.consumed (gather s b.blocks)
      → gather y.store y.input.blocks ≡ drop r.consumed (gather s b.blocks)
      → All (Inside y.store) c.slices
      → ((q : ℕ) → held q c.slices ≤ 1)
      → Valid y.store (λ q. held q c.slices + other q) y.input
      → Frame s y.store (λ q. count q b.blocks) other
      → Cuts r b other s y
  nothing :
      is_ok r.status ≡ false
      → y.status ≡ convert r.status
      → y.frame ≡ none
      → y.store ≡ s
      → y.input.blocks ≡ b.blocks
      → Valid s other y.input
      → Cuts r b other s y

module _ {Value : Type 0} (resp : Resp Value) (alloc : ℕ → Bool) where
  cut_reply-Cuts :
      {other : ℕ → ℕ} (r : RespResult Value) (p : RespParser) (b b' : IoBuffer) (s : Store)
      → b'.blocks ≡ b.blocks
      → Valid s other b'
      → ((q : ℕ) → other q + 2 < 2 ^ 32)
      → Cuts r b other s (cut_reply resp alloc r p b' s)
  unfolding cut_reply
  cut_reply-Cuts {other} r p b b' s same v few = elim (Bool-cases (is_ok r.status)) [
    | inl ok ↦
        let sl = slice_prefix-Slices r.consumed b' s v few in
        rw ok (
          cut (slice_prefix r.consumed b' s).2 (is_ok-eq r.status ok) refl refl
            (sl.text ∙ ap (λ ps. take r.consumed (gather s ps)) same)
            (sl.bytes ∙ ap (λ ps. drop r.consumed (gather s ps)) same) sl.inside
            (λ q. omega (arith, sl.light q, v.alone q)) sl.valid
            (subst (λ ps. Frame s (slice_prefix r.consumed b' s).0 (λ q. count q ps) other) same
              sl.frame))
    | inr not_ok ↦ rw not_ok (nothing not_ok refl refl refl same v)
  ]

  cut_reply_parser :
      (r : RespResult Value) (p : RespParser) (b : IoBuffer) (s : Store)
      → (cut_reply resp alloc r p b s).parser ≡ p
  unfolding cut_reply
  cut_reply_parser r p b s = elim (Bool-cases (is_ok r.status)) [
    | inl ok ↦ rw ok refl
    | inr other ↦ rw other refl
  ]

  -- What `nextReplyFrame` returns, with the limits of the parser as they were.
  abbrev pub Framed : (ℕ → ℕ) → RespParser → IoBuffer → Store → Type 0
  Framed other p b s =
      (y : Reply) × (next_reply_frame resp alloc p b s ≡ some y)
      × Cuts (unpack_at_once resp alloc p.limits p.max_frame_bytes (gather s b.blocks)) b other s y
      × (y.parser.limits ≡ p.limits)
      × (y.parser.max_frame_bytes ≡ p.max_frame_bytes)

  pub next_reply_frame-Framed :
      {other : ℕ → ℕ} (p : RespParser) (b : IoBuffer) (s : Store)
      → Stable resp alloc
      → ((n : ℕ) → alloc n ≡ true)
      → Valid s other b
      → ((q : ℕ) → other q + 2 < 2 ^ 32)
      → Framed other p b s
  unfolding next_reply_frame
  next_reply_frame-Framed {other} p b s stable room v few =
      let shows = readable_view-Shows b s v in
      let (q, e, l, m) = unpack-unpack_at_once resp alloc stable room p (readable_view b s).1 in
      let answer = unpack_at_once resp alloc p.limits p.max_frame_bytes (readable_view b s).1 in
      let same = cut_reply_parser answer q (readable_view b s).0 s in
      (
        cut_reply resp alloc answer q (readable_view b s).0 s,
        ap (replied resp alloc (readable_view b s).0 s) e,
        subst
            (λ t.
              Cuts (unpack_at_once resp alloc p.limits p.max_frame_bytes t) b other s
                (cut_reply resp alloc answer q (readable_view b s).0 s))
            shows.view (cut_reply-Cuts _ q b (readable_view b s).0 s shows.blocks shows.valid few),
        ap (λ z. z.limits) same ∙ l,
        ap (λ z. z.max_frame_bytes) same ∙ m,
      )

  -- If the answer of the library does not depend on spare slots, every allocation succeeds and no block
  -- comes near 2 ^ 32 references, `nextReplyFrame` on a valid buffer returns. With a complete reply it cuts
  -- off a chain that shows exactly the bytes of the reply, and the rest stays readable; otherwise it
  -- takes nothing.
  pub next_reply_frame-Cuts :
      {other : ℕ → ℕ} (p : RespParser) (b : IoBuffer) (s : Store)
      → Stable resp alloc
      → ((n : ℕ) → alloc n ≡ true)
      → Valid s other b
      → ((q : ℕ) → other q + 2 < 2 ^ 32)
      → (y : Reply) × (next_reply_frame resp alloc p b s ≡ some y)
        × Cuts
            (unpack_at_once resp alloc p.limits p.max_frame_bytes (gather s b.blocks))
            b
            other
            s
            y
  next_reply_frame-Cuts p b s stable room v few =
      let (y, e, cuts, l, m) = next_reply_frame-Framed p b s stable room v few in (y, e, cuts)
