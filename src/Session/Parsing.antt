-- ===== src/Session/Parsing.antt =====
-- src/client_session.cpp, `readerLoop`: the commands that a round finds in the input, and what it does next.
-- The parser is its method `peekFrame`, as a function of the offset in the input.
pub mod Prefix
pub mod Outcome
use redis_proxy.Base.{
  ℕ, zero, suc, ◌+◌, Bool, true, false, not, ◌&&◌, List, [], ◌∷◌, codes, ◌==◌, if◌then◌else◌,
}
use redis_proxy.Status.{Status, is_ok}
use redis_proxy.Rules.{CommandRules, validate}
pub use redis_proxy.Parser.{ParseStatus, RespFrameInfo}
use redis_proxy.Session.Loops.{is_nil}

-- `parser_.peekFrame(client_in_, consumed, &info)`.
abbrev pub Peek : Type 0
Peek = ℕ → ParseStatus × RespFrameInfo

-- The local variables of a round.
pub record Scan : Type 0 where
  pub parsed : ℕ
  pub consumed : ℕ
  pub rejected_bytes : ℕ
  pub error : List ℕ
  pub ps : ParseStatus

abbrev pub out_of_memory : List ℕ
out_of_memory = codes "ERR proxy out of memory"

abbrev pub bad_input : List ℕ
bad_input = codes "ERR proxy protocol error"

-- The body of the loop, given what `peekFrame` and `validate` say, and the rest of the loop.
unfoldable pub scan_frame : ParseStatus → RespFrameInfo → Status → Scan → Scan → Scan
scan_frame ParseStatus.k_need_more info valid here rest = record here {
  ps = ParseStatus.k_need_more;
}
scan_frame ParseStatus.k_no_memory info valid here rest = record here {
  ps = ParseStatus.k_no_memory;
  error = out_of_memory;
}
scan_frame ParseStatus.k_error info valid here rest = record here {
  ps = ParseStatus.k_error;
  error = bad_input;
}
scan_frame ParseStatus.k_ok info valid here rest = if is_ok valid then rest else record here {
  ps = ParseStatus.k_ok;
  error = valid.message;
  rejected_bytes = info.consumed;
}

-- The loop, with `budget` commands to go.
unfoldable pub scan : CommandRules → Peek → ℕ → Scan → Scan
unfolding scan_frame
scan rules peek zero here = here
scan rules peek (suc budget) here =
    let (status, info) = peek here.consumed in
    let rest = scan rules peek budget (record here {
      parsed = suc here.parsed;
      consumed = here.consumed + info.consumed;
      ps = ParseStatus.k_ok;
    }) in
    scan_frame status info (validate rules info.command_name info.argc) here rest

unfoldable pub first_scan : Scan
first_scan = record {
  parsed = 0;
  consumed = 0;
  rejected_bytes = 0;
  error = [];
  ps = ParseStatus.k_need_more;
}

-- What a round does after it has submitted the commands: it drains with an error, skips a rejected
-- command and answers it, starts over with what is left of the input, or reads.
pub data Next : Type 0 where
  drains : List ℕ → Next
  rejects : List ℕ → ℕ → Next
  again reads : Next

abbrev pub is_k_ok : ParseStatus → Bool
is_k_ok ParseStatus.k_ok = true
is_k_ok _ = false

-- `left` is `client_in_.readableBytes()` after the submission.
unfoldable pub after_scan : ℕ → Scan → Next
after_scan left s =
    if not (is_nil s.error)
    then (if s.rejected_bytes == 0 then drains s.error else rejects s.error s.rejected_bytes)
    else (if is_k_ok s.ps && not (left == 0) then again else reads)
