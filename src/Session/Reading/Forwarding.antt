-- ===== src/Session/Reading/Forwarding.antt =====
-- src/client_session.cpp, `readerLoop`: the bytes of a round's commands, and the input that is left.
use redis_proxy.Base.{
  ℕ, ◌+◌, ◌^◌, ◌<◌, ◌≡◌, refl, sym, ap, ap₂, subst, ◌∙◌, Bool, true, List, some, arith, take, drop,
  ◌==◌, if◌then◌else◌, All,
}
use redis_proxy.Buffer.Store.{Store}
use redis_proxy.Buffer.Chain.{to_string_for_test}
use redis_proxy.Buffer.IoBuffer.{IoBuffer, gather}
use redis_proxy.Buffer.IoBuffer.Valid.{Valid}
use redis_proxy.Buffer.IoBuffer.Reading.{consume-Consumes}
use redis_proxy.Buffer.IoBuffer.References.{Inside, held, slices_string-Frame}
use redis_proxy.Buffer.IoBuffer.Slicing.{slice_prefix-Slices}
use redis_proxy.Rules.{CommandRules}
use redis_proxy.Parser.{Resp, RespParser}
use redis_proxy.Parser.Arena.{Stable}
use redis_proxy.Session.Parsing.{Peek, Scan, scan, first_scan}
use redis_proxy.Session.Parsing.Prefix.{Accepted, nothing, frame, Forwards, scan-Forwards}
use redis_proxy.Session.Reading.{
  Scanned, Round, cut_commands, cut_if, skip_rejected, skip_if, find_commands, read_commands,
}
use redis_proxy.Session.Reading.Input.{peek_text, scan_input-Ends}

-- With no command there is no byte.
cut_at-consumed :
    (rules : CommandRules) (peek : Peek) (n at : ℕ)
    → Accepted rules peek 0 n at
    → (if n == 0 then 0 else at) ≡ at
cut_at-consumed rules peek n at (nothing e) = e
cut_at-consumed rules peek n at (frame info e ok rest more) = ground (arith, more)

-- What a round with the given variables takes from a text.
pub record Takes (text : List ℕ) (other : ℕ → ℕ) (x : Scan) (r : Round) : Type 0 where
  pub variables : r.scan ≡ x
  pub shown : to_string_for_test r.store r.bytes ≡ take x.consumed text
  pub left : gather r.store r.input.blocks ≡ drop x.rejected_bytes (drop x.consumed text)
  pub inside : All (Inside r.store) r.bytes.slices
  pub valid : Valid r.store (λ q. held q r.bytes.slices + other q) r.input

-- The same before a rejected command is skipped.
pub record Found (text : List ℕ) (other : ℕ → ℕ) (x : Scan) (r : Round) : Type 0 where
  pub variables : r.scan ≡ x
  pub shown : to_string_for_test r.store r.bytes ≡ take x.consumed text
  pub left : gather r.store r.input.blocks ≡ drop x.consumed text
  pub inside : All (Inside r.store) r.bytes.slices
  pub valid : Valid r.store (λ q. held q r.bytes.slices + other q) r.input

cut_commands-Found :
    {other : ℕ → ℕ} (x : Scanned) (s : Store)
    → (if x.scan.parsed == 0 then 0 else x.scan.consumed) ≡ x.scan.consumed
    → Valid s other x.input
    → ((q : ℕ) → other q + 2 < 2 ^ 32)
    → Found (gather s x.input.blocks) other x.scan (cut_commands x s)
unfolding cut_commands
cut_commands-Found x s at v few =
    let sl = slice_prefix-Slices x.scan.consumed x.input s v few in
    rw at (record {
      variables = refl;
      shown = sl.text;
      left = sl.bytes;
      inside = sl.inside;
      valid = sl.valid;
    })

pub skip_rejected-Takes :
    {other : ℕ → ℕ} (text : List ℕ) (x : Scan) (r : Round)
    → Found text other x r
    → Takes text other x (skip_rejected r)
unfolding skip_rejected to_string_for_test
skip_rejected-Takes text x r f =
    let rest = consume-Consumes r.scan.rejected_bytes r.input r.store f.valid in
    let (kept, inside) =
      slices_string-Frame r.bytes.slices rest.frame (λ q. omega arith) f.inside in
    record {
      variables = f.variables;
      shown = kept ∙ f.shown;
      left = rest.bytes ∙ ap₂ drop (ap (λ y. y.rejected_bytes) f.variables) f.left;
      inside = inside;
      valid = rest.valid;
    }

module _ {Value : Type 0} (resp : Resp Value) (alloc : ℕ → Bool) (rules : CommandRules) where
  -- What a round has found when it submits.
  pub find_commands-Found :
      {other : ℕ → ℕ} (budget : ℕ) (p : RespParser) (b : IoBuffer) (s : Store)
      → Stable resp alloc
      → ((n : ℕ) → alloc n ≡ true)
      → Valid s other b
      → ((q : ℕ) → other q + 2 < 2 ^ 32)
      → let peek = peek_text resp alloc p.limits p.max_frame_bytes (gather s b.blocks) in
        let x = scan rules peek budget first_scan in
        (r : Round) × (find_commands resp alloc rules s budget p b ≡ some r)
        × Found (gather s b.blocks) other x r
        × Forwards rules peek budget x
  unfolding find_commands
  find_commands-Found {other} budget p b s stable room v few =
      let (y, e, l) =
        scan_input-Ends resp alloc p.limits p.max_frame_bytes b.blocks other rules s budget p b
          first_scan stable room
          (record { limits_at = refl; max_at = refl; blocks_at = refl; valid_at = v }) in
      let forwards =
        scan-Forwards rules (peek_text resp alloc p.limits p.max_frame_bytes (gather s b.blocks))
          budget in
      let at = cut_at-consumed rules _ y.scan.parsed y.scan.consumed (
        subst
          (λ x.
            Accepted rules (peek_text resp alloc p.limits p.max_frame_bytes (gather s b.blocks)) 0
              x.parsed x.consumed)
          (sym l.scan) forwards.0) in
      (
        cut_commands y s,
        ap (cut_if s) e,
        subst
            (λ ps.
              Found (gather s ps) other
                (scan rules (peek_text resp alloc p.limits p.max_frame_bytes (gather s b.blocks))
                  budget first_scan)
                (cut_commands y s))
            l.blocks_kept
            (subst (λ x. Found (gather s y.input.blocks) other x (cut_commands y s)) l.scan
              (cut_commands-Found y s at l.valid few)),
        forwards,
      )

  -- If the answer of the library does not depend on spare slots, every allocation succeeds and no block comes
  -- near 2 ^ 32 references, a round over a valid buffer returns. Up to the offset where it
  -- stopped, the input consists of commands that parse and that the rules accept, as many as it
  -- counted; the chain that it forwards shows exactly these bytes; and what stays readable is the rest
  -- of the input without the bytes of a rejected command.
  pub read_commands-Takes :
      {other : ℕ → ℕ} (budget : ℕ) (p : RespParser) (b : IoBuffer) (s : Store)
      → Stable resp alloc
      → ((n : ℕ) → alloc n ≡ true)
      → Valid s other b
      → ((q : ℕ) → other q + 2 < 2 ^ 32)
      → let peek = peek_text resp alloc p.limits p.max_frame_bytes (gather s b.blocks) in
        let x = scan rules peek budget first_scan in
        (r : Round) × (read_commands resp alloc rules s budget p b ≡ some r)
        × Takes (gather s b.blocks) other x r
        × Forwards rules peek budget x
  unfolding read_commands
  read_commands-Takes budget p b s stable room v few =
      let (r, e, found, forwards) = find_commands-Found budget p b s stable room v few in
      (skip_rejected r, ap skip_if e, skip_rejected-Takes _ _ r found, forwards)
