-- ===== src/Session/Reading/Input.antt =====
-- src/client_session.cpp, `readerLoop`: the loop over the buffer is the loop over its readable bytes.
use redis_proxy.Base.{
  ℕ, zero, suc, ◌<◌, ◌≡◌, drop, refl, sym, ap, subst, ◌∙◌, inl, inr, Bool, true, List, Option, some,
  Bool-cases,
}
use redis_proxy.Status.{is_ok}
use redis_proxy.Buffer.Store.{Store}
use redis_proxy.Buffer.IoBuffer.{IoBuffer, gather}
use redis_proxy.Buffer.IoBuffer.Valid.{Valid}
use redis_proxy.Rules.{CommandRules, validate}
use redis_proxy.Parser.{Resp, RespParser, RespLimits, ParseStatus, RespFrameInfo}
use redis_proxy.Parser.Arena.{Stable, unpack_at_once}
use redis_proxy.Parser.Commands.{Sees}
use redis_proxy.Parser.Frames.{frame_at, Looks, frame_at-Looks, peek_frame_at}
use redis_proxy.Parser.Progress.{Consumes, unpack_at_once-Consumes}
use redis_proxy.Session.Parsing.{Peek, Scan, scan, scan_frame}
use redis_proxy.Session.Reading.{Scanned, written_info, next_scan, scan_next, scan_input}

module _ {Value : Type 0} (resp : Resp Value) (alloc : ℕ → Bool) where
  -- `peekFrame` as a function of the offset in a text.
  unfoldable pub peek_text : RespLimits → ℕ → List ℕ → Peek
  peek_text limits max_frame_bytes text offset =
      let (st, out) = frame_at resp alloc limits max_frame_bytes text offset in
      (st, written_info out)

  -- What a loop leaves: the given variables, the limits, and a valid buffer with the given blocks.
  pub record Leaves (limits : RespLimits) (max_frame_bytes : ℕ) (blocks : List ℕ) (other : ℕ → ℕ)
      (s : Store) (after : Scan) (x : Scanned) : Type 0 where
    pub scan : x.scan ≡ after
    pub limits_kept : x.parser.limits ≡ limits
    pub max_kept : x.parser.max_frame_bytes ≡ max_frame_bytes
    pub valid : Valid s other x.input
    pub blocks_kept : x.input.blocks ≡ blocks

  module _ (limits : RespLimits) (max_frame_bytes : ℕ) (blocks : List ℕ) (other : ℕ → ℕ)
      (rules : CommandRules) (s : Store) where
    abbrev Ends : Scan → Option Scanned → Type 0
    Ends after o =
        (x : Scanned) × (o ≡ some x) × Leaves limits max_frame_bytes blocks other s after x

    -- A parser and a buffer that stand for the limits and the blocks.
    pub record Stands (p : RespParser) (b : IoBuffer) : Type 0 where
      pub limits_at : p.limits ≡ limits
      pub max_at : p.max_frame_bytes ≡ max_frame_bytes
      pub blocks_at : b.blocks ≡ blocks
      pub valid_at : Valid s other b

    stops_here :
        (p : RespParser) (b : IoBuffer) (here : Scan)
        → Stands p b
        → Ends here (some (record { scan = here; parser = p; input = b }))
    stops_here p b here k = (
      record { scan = here; parser = p; input = b },
      refl,
      record {
        scan = refl;
        limits_kept = k.limits_at;
        max_kept = k.max_at;
        valid = k.valid_at;
        blocks_kept = k.blocks_at;
      },
    )

    -- The body of the loop, given what the rest of it leaves.
    scan_next-Ends :
        (st : ParseStatus) (out : Option RespFrameInfo) (p : RespParser) (b : IoBuffer)
        (here after : Scan) (rest : RespParser → IoBuffer → Scan → Option Scanned)
        → Stands p b
        → Ends after (rest p b (next_scan (written_info out) here))
        → Ends
            (scan_frame st
              (written_info out)
              (validate rules (written_info out).command_name (written_info out).argc)
              here
              after)
            (scan_next resp alloc rules s rest here (some ((st, out), p, b)))
    unfolding scan_next scan_frame
    scan_next-Ends ParseStatus.k_need_more out p b here after rest k ih = stops_here p b _ k
    scan_next-Ends ParseStatus.k_no_memory out p b here after rest k ih = stops_here p b _ k
    scan_next-Ends ParseStatus.k_error out p b here after rest k ih = stops_here p b _ k
    scan_next-Ends ParseStatus.k_ok out p b here after rest k ih =
        elim (Bool-cases
          (is_ok (validate rules (written_info out).command_name (written_info out).argc))) [
            | inl accepted ↦ rw accepted ih
            | inr denied ↦ rw denied (stops_here p b _ k)
          ]

    -- The loop over the buffer ends, with the variables of the loop over its readable bytes.
    pub scan_input-Ends :
        (budget : ℕ) (p : RespParser) (b : IoBuffer) (here : Scan)
        → Stable resp alloc
        → ((n : ℕ) → alloc n ≡ true)
        → Stands p b
        → Ends
            (scan rules (peek_text limits max_frame_bytes (gather s blocks)) budget here)
            (scan_input resp alloc rules s budget p b here)
    unfolding scan_input scan peek_text
    scan_input-Ends zero p b here stable room k = stops_here p b here k
    scan_input-Ends (suc budget) p b here stable room k =
        let (r, e, look) = peek_frame_at resp alloc p b s here.consumed stable room k.valid_at in
        let frame =
          look.frame
          ∙ ap (λ l. frame_at resp alloc l p.max_frame_bytes (gather s b.blocks) here.consumed)
              k.limits_at
          ∙ ap (λ m. frame_at resp alloc limits m (gather s b.blocks) here.consumed) k.max_at
          ∙ ap (λ ps. frame_at resp alloc limits max_frame_bytes (gather s ps) here.consumed)
              k.blocks_at in
        let stands : Stands r.1 r.2 = record {
          limits_at = look.limits ∙ k.limits_at;
          max_at = look.max_frame_bytes ∙ k.max_at;
          blocks_at = look.blocks ∙ k.blocks_at;
          valid_at = look.valid;
        } in
        subst
          (λ o.
            Ends (scan rules (peek_text limits max_frame_bytes (gather s blocks)) (suc budget) here)
              (scan_next resp alloc rules s (scan_input resp alloc rules s budget) here o))
          (sym e)
          (subst
            (λ f.
              Ends
                (scan_frame f.0 (written_info f.1)
                  (validate rules (written_info f.1).command_name (written_info f.1).argc) here
                  (scan rules (peek_text limits max_frame_bytes (gather s blocks)) budget
                    (next_scan (written_info f.1) here)))
                (scan_next resp alloc rules s (scan_input resp alloc rules s budget) here
                  (some (r.0, r.1, r.2))))
            frame
            (scan_next-Ends r.0.0 r.0.1 r.1 r.2 here _ (scan_input resp alloc rules s budget) stands
              (scan_input-Ends budget r.1 r.2 (next_scan (written_info r.0.1) here) stable room
                stands)))

  -- A complete frame of a text has at least one byte.
  pub peek_text-Consumes :
      (limits : RespLimits) (max_frame_bytes : ℕ) (text : List ℕ)
      → Consumes resp
      → (a : ℕ) (info : RespFrameInfo)
      → peek_text limits max_frame_bytes text a ≡ (ParseStatus.k_ok, info)
      → 0 < info.consumed
  unfolding peek_text
  peek_text-Consumes limits max_frame_bytes text consumes a info e =
      by_looks _ (frame_at-Looks resp alloc limits max_frame_bytes text a) (ap (λ g. g.0) e)
        (ap (λ g. g.1) e)
    where
      by_answer :
          (f : ParseStatus × Option RespFrameInfo)
          → Sees resp alloc (unpack_at_once resp alloc limits max_frame_bytes (drop a text)) f
          → f.0 ≡ ParseStatus.k_ok
          → written_info f.1 ≡ info
          → 0 < info.consumed
      by_answer f (Sees.command first rest ok command to) h k =
          subst (λ n. 0 < n)
            (sym (ap (λ g. (written_info g.1).consumed) to) ∙ ap (λ g. g.consumed) k)
            (unpack_at_once-Consumes resp alloc limits max_frame_bytes (drop a text) consumes ok).0
      by_answer f (Sees.no_command ok not_one to) h k = absurd (cc (ap (λ g. g.0) to, h))
      by_answer f (Sees.short st to) h k = absurd (cc (ap (λ g. g.0) to, h))
      by_answer f (Sees.starved st to) h k = absurd (cc (ap (λ g. g.0) to, h))
      by_answer f (Sees.malformed st to) h k = absurd (cc (ap (λ g. g.0) to, h))

      by_looks :
          (f : ParseStatus × Option RespFrameInfo)
          → Looks resp alloc limits max_frame_bytes text a f
          → f.0 ≡ ParseStatus.k_ok
          → written_info f.1 ≡ info
          → 0 < info.consumed
      by_looks f (Looks.past_the_end past to) h k = absurd (cc (ap (λ g. g.0) to, h))
      by_looks f (Looks.within_text le sees) h k = by_answer f sees h k
