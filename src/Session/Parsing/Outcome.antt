-- ===== src/Session/Parsing/Outcome.antt =====
-- src/client_session.cpp, `readerLoop`: an empty error text and a zero count of rejected bytes stand for
-- "no error" and "no rejected command", and are never mistaken.
use redis_proxy.Base.{ℕ, ◌≡◌, false, ◌&&◌, not, ◌==◌, if◌then◌else◌}
use redis_proxy.Status.{is_ok}
use redis_proxy.Rules.{CommandRules, validate}
use redis_proxy.Session.Parsing.{
  ParseStatus, RespFrameInfo, Peek, Scan, out_of_memory, bad_input, Next, drains, rejects, again,
  reads, is_k_ok,
}

-- What a round does next, and why.
pub data Follows (rules : CommandRules) (peek : Peek) (budget : ℕ) (s : Scan) (left : ℕ)
    : Next → Type 0 where
  after_denial :
      {n : Next} (info : RespFrameInfo)
      → peek s.consumed ≡ (ParseStatus.k_ok, info)
      → is_ok (validate rules info.command_name info.argc) ≡ false
      → n ≡ rejects (validate rules info.command_name info.argc).message info.consumed
      → Follows rules peek budget s left n
  after_broken :
      {n : Next} (info : RespFrameInfo)
      → peek s.consumed ≡ (ParseStatus.k_error, info)
      → n ≡ drains bad_input
      → Follows rules peek budget s left n
  after_no_memory :
      {n : Next} (info : RespFrameInfo)
      → peek s.consumed ≡ (ParseStatus.k_no_memory, info)
      → n ≡ drains out_of_memory
      → Follows rules peek budget s left n
  after_incomplete :
      {n : Next} (info : RespFrameInfo)
      → peek s.consumed ≡ (ParseStatus.k_need_more, info)
      → n ≡ reads
      → Follows rules peek budget s left n
  after_budget :
      {n : Next}
      → s.parsed ≡ budget
      → n ≡ (if is_k_ok s.ps && not (left == 0) then again else reads)
      → Follows rules peek budget s left n
