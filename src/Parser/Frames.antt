-- ===== src/Parser/Frames.antt =====
-- src/resp_parser.cpp, `peekFrame`: what it sees depends on the readable bytes alone.
use redis_proxy.Base.{
  ℕ, ◌≡◌, ◌≤◌, ◌<◌, arith, refl, sym, ap, subst, ◌∙◌, inl, inr, Bool, true, List, Option, none,
  some, ltb, if◌then◌else◌, length, drop, Bool-cases,
}
use redis_proxy.Buffer.Store.{Store}
use redis_proxy.Buffer.IoBuffer.{IoBuffer, readable_view, gather}
use redis_proxy.Buffer.IoBuffer.Valid.{Valid}
use redis_proxy.Buffer.IoBuffer.Reading.{readable_view-Shows}
use redis_proxy.Parser.{
  Resp, RespParser, RespLimits, ParseStatus, RespFrameInfo, frame_of, peeked, peek_frame,
}
use redis_proxy.Parser.Commands.{Sees, frame_of-Sees}
use redis_proxy.Parser.Arena.{Stable, unpack_at_once, unpack-unpack_at_once}

module _ {Value : Type 0} (resp : Resp Value) (alloc : ℕ → Bool) where
  -- The frame at an offset of a text.
  unfoldable pub frame_at : RespLimits → ℕ → List ℕ → ℕ → ParseStatus × Option RespFrameInfo
  unfolding frame_of unpack_at_once
  frame_at limits max_frame_bytes text offset =
      if ltb (length text) offset
      then (ParseStatus.k_error, none)
      else frame_of resp alloc (unpack_at_once resp alloc limits max_frame_bytes (drop offset text))

  -- What a status and an `out` say of the text at an offset, given the answers of the library.
  pub data Looks (limits : RespLimits) (max_frame_bytes : ℕ) (text : List ℕ) (offset : ℕ)
      (a : ParseStatus × Option RespFrameInfo) : Type 0 where
    past_the_end :
        length text < offset
        → a ≡ (ParseStatus.k_error, none)
        → Looks limits max_frame_bytes text offset a
    within_text :
        offset ≤ length text
        → Sees resp alloc (unpack_at_once resp alloc limits max_frame_bytes (drop offset text)) a
        → Looks limits max_frame_bytes text offset a

  pub frame_at-Looks :
      (limits : RespLimits) (max_frame_bytes : ℕ) (text : List ℕ) (offset : ℕ)
      → Looks limits max_frame_bytes text offset (frame_at limits max_frame_bytes text offset)
  unfolding frame_at
  frame_at-Looks limits max_frame_bytes text offset = elim (Bool-cases (ltb (length text) offset)) [
    | inl past ↦ rw past (Looks.past_the_end (ground (arith, past)) refl)
    | inr before ↦
        rw before (Looks.within_text (ground (arith, before)) (frame_of-Sees resp alloc _))
  ]

  -- What a look at the input leaves: the same limits, and a valid buffer with the same blocks.
  pub record Peeks (p : RespParser) (b : IoBuffer) (other : ℕ → ℕ) (s : Store) (offset : ℕ)
      (r : (ParseStatus × Option RespFrameInfo) × RespParser × IoBuffer) : Type 0 where
    pub frame : r.0 ≡ frame_at p.limits p.max_frame_bytes (gather s b.blocks) offset
    pub limits : r.1.limits ≡ p.limits
    pub max_frame_bytes : r.1.max_frame_bytes ≡ p.max_frame_bytes
    pub valid : Valid s other r.2
    pub blocks : r.2.blocks ≡ b.blocks

  -- What `peekFrame` returns, with the frame as a function of the text.
  pub peek_frame_at :
      {other : ℕ → ℕ} (p : RespParser) (b : IoBuffer) (s : Store) (offset : ℕ)
      → Stable resp alloc
      → ((n : ℕ) → alloc n ≡ true)
      → Valid s other b
      → (r : (ParseStatus × Option RespFrameInfo) × RespParser × IoBuffer) × (peek_frame resp alloc
            p b s offset
          ≡ some r)
        × Peeks p b other s offset r
  unfolding peek_frame frame_at
  peek_frame_at {other} p b s offset stable room v =
      elim (Bool-cases (ltb b.readable_bytes offset)) [
        | inl past ↦ rw past (
          ((ParseStatus.k_error, none), p, b),
          refl,
          record {
            frame = rw (past_end past) refl;
            limits = refl;
            max_frame_bytes = refl;
            valid = v;
            blocks = refl;
          },
        )
        | inr within ↦
            let shows = readable_view-Shows b s v in
            let (q, e, l, m) =
              unpack-unpack_at_once resp alloc stable room p (drop offset (readable_view b s).1) in
            rw within (
              (
                frame_of resp alloc (
                    unpack_at_once resp alloc p.limits p.max_frame_bytes
                      (drop offset (readable_view b s).1)),
                q,
                (readable_view b s).0,
              ),
              ap (peeked resp alloc (readable_view b s).0) e,
              record {
                frame =
                    ap
                      (λ t.
                        frame_of resp alloc
                          (unpack_at_once resp alloc p.limits p.max_frame_bytes (drop offset t)))
                      shows.view
                    ∙ rw (sym (ap (λ n. ltb n offset) v.counted) ∙ within) refl;
                limits = l;
                max_frame_bytes = m;
                valid = shows.valid;
                blocks = shows.blocks;
              },
            )
      ]
    where
      past_end : ltb b.readable_bytes offset ≡ true → ltb (length (gather s b.blocks)) offset ≡ true
      past_end h = sym (ap (λ n. ltb n offset) v.counted) ∙ h

  -- If the answer of the library does not depend on spare slots and every allocation succeeds, `peekFrame`
  -- on a valid buffer returns, whatever the arena and the cached copy were, and keeps the readable bytes and
  -- the limits. Past the end of the readable bytes it gives an error. Otherwise it goes by the answer of the library for
  -- the bytes from the offset on: a complete value that is a non-empty array of bulk strings gives `ok` with
  -- the bytes it consumed, the text of the first string as the name and the number of strings; any other
  -- complete value gives an error; an answer that is not complete gives its own status and no frame.
  pub peek_frame-Peeks :
      {other : ℕ → ℕ} (p : RespParser) (b : IoBuffer) (s : Store) (offset : ℕ)
      → Stable resp alloc
      → ((n : ℕ) → alloc n ≡ true)
      → Valid s other b
      → (r : (ParseStatus × Option RespFrameInfo) × RespParser × IoBuffer) × (peek_frame resp alloc
            p b s offset
          ≡ some r)
        × Looks p.limits p.max_frame_bytes (gather s b.blocks) offset r.0
        × Peeks p b other s offset r
  peek_frame-Peeks p b s offset stable room v =
      let (r, e, look) = peek_frame_at p b s offset stable room v in
      (
        r,
        e,
        subst (Looks p.limits p.max_frame_bytes (gather s b.blocks) offset) (sym look.frame)
            (frame_at-Looks p.limits p.max_frame_bytes (gather s b.blocks) offset),
        look,
      )
