-- ===== src/Session/Reading.antt =====
-- src/client_session.cpp, `readerLoop`: a round over the input buffer of the session and its parser. The loop
-- of Session/Parsing.antt with `peekFrame` called on the buffer, then `slicePrefix` and `consume`.
pub mod Input
pub mod Forwarding
use redis_proxy.Base.{
  ℕ, zero, suc, ◌+◌, Bool, true, false, List, [], Option, none, some, ◌==◌, ltb, if◌then◌else◌,
}
use redis_proxy.Buffer.Store.{Store}
use redis_proxy.Buffer.Chain.{Chain, empty_chain}
use redis_proxy.Buffer.IoBuffer.{IoBuffer, slice_prefix, consume}
use redis_proxy.Status.{Status, is_ok}
use redis_proxy.Rules.{CommandRules, validate}
use redis_proxy.Parser.{Resp, RespParser, RespLimits, ParseStatus, RespFrameInfo, peek_frame}
use redis_proxy.Session.Parsing.{Peek, Scan, scan_frame, first_scan}

-- `RespFrameInfo info;`.
abbrev blank_info : RespFrameInfo
blank_info = record { consumed = 0; command_name = []; argc = 0 }

-- `info` after `peekFrame(..., &info)`.
abbrev pub written_info : Option RespFrameInfo → RespFrameInfo
written_info none = blank_info
written_info (some info) = info

-- What a round leaves: its variables, the parser and the buffer.
pub record Scanned : Type 0 where
  pub scan : Scan
  pub parser : RespParser
  pub input : IoBuffer

-- Whether the loop goes on after a frame.
abbrev pub goes_on : ParseStatus → Status → Bool
goes_on ParseStatus.k_ok valid = is_ok valid
goes_on _ valid = false

abbrev pub next_scan : RespFrameInfo → Scan → Scan
next_scan info here = record here {
  parsed = suc here.parsed;
  consumed = here.consumed + info.consumed;
  ps = ParseStatus.k_ok;
}

abbrev Looked : Type 0
Looked = (ParseStatus × Option RespFrameInfo) × RespParser × IoBuffer

-- What a round hands to the backend and keeps: the variables, the bytes of the commands, and the state.
pub record Round : Type 0 where
  pub scan : Scan
  pub bytes : Chain
  pub parser : RespParser
  pub input : IoBuffer
  pub store : Store

-- `slicePrefix(consumed)`, if a command was found.
unfoldable pub cut_commands : Scanned → Store → Round
cut_commands x s =
    let (s', b', c) = slice_prefix (if x.scan.parsed == 0 then 0 else x.scan.consumed) x.input s in
    record { scan = x.scan; bytes = c; parser = x.parser; input = b'; store = s' }

-- `consume(rejected_bytes)`, once the commands before are submitted.
unfoldable pub skip_rejected : Round → Round
skip_rejected r =
    let (s', b') = consume r.scan.rejected_bytes r.input r.store in
    record r { input = b'; store = s' }

abbrev pub cut_if : Store → Option Scanned → Option Round
cut_if s none = none
cut_if s (some x) = some (cut_commands x s)

abbrev pub skip_if : Option Round → Option Round
skip_if none = none
skip_if (some r) = some (skip_rejected r)

module _ {Value : Type 0} (resp : Resp Value) (alloc : ℕ → Bool) (rules : CommandRules)
    (s : Store) where
  -- The body of the loop after `peekFrame`, given the rest of the loop.
  unfoldable pub scan_next :
      (RespParser → IoBuffer → Scan → Option Scanned) → Scan → Option Looked → Option Scanned
  unfolding scan_frame
  scan_next rest here none = none
  scan_next rest here (some ((st, out), p, b)) =
      let info = written_info out in
      let valid = validate rules info.command_name info.argc in
      let more = rest p b (next_scan info here) in
      if goes_on st valid
      then more
      else some (record { scan = scan_frame st info valid here here; parser = p; input = b })

  -- The loop with `budget` commands to go. `none` means that `unpack` has run out of fuel.
  unfoldable pub scan_input : ℕ → RespParser → IoBuffer → Scan → Option Scanned
  unfolding scan_next
  scan_input zero p b here = some (record { scan = here; parser = p; input = b })
  scan_input (suc budget) p b here =
      scan_next (scan_input budget) here (peek_frame resp alloc p b s here.consumed)

  -- A round up to the submission of the commands.
  unfoldable pub find_commands : ℕ → RespParser → IoBuffer → Option Round
  unfolding scan_input cut_commands first_scan
  find_commands budget p b = cut_if s (scan_input budget p b first_scan)

  -- A round whose submission succeeds, up to the skipping of a rejected command.
  unfoldable pub read_commands : ℕ → RespParser → IoBuffer → Option Round
  unfolding find_commands skip_rejected
  read_commands budget p b = skip_if (find_commands budget p b)
