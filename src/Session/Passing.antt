-- ===== src/Session/Passing.antt =====
-- src/client_session.cpp, `readerLoop`: a whole round up to its next suspension point: the commands are cut off the
-- input and submitted, and the outcome of the parsing is acted on.
pub mod Running
use redis_proxy.Base.{ℕ, ◌^◌, ◌%◌, Bool, true, false, List, Option, none, some, ◌==◌, if◌then◌else◌}
use redis_proxy.Buffer.Store.{Store}
use redis_proxy.Buffer.IoBuffer.{IoBuffer}
use redis_proxy.Rules.{CommandRules}
use redis_proxy.Parser.{Resp, RespParser}
use redis_proxy.Session.{World, submit_batch, drain}
use redis_proxy.Session.Loops.{on_session}
use redis_proxy.Session.Parsing.{Next, drains, rejects, again, reads, after_scan}
use redis_proxy.Session.Reading.{Round, skip_rejected, find_commands}

-- Where the loop is then: at its end, at the wait for the replies before the error of a rejected command, at the
-- pause before another round, or in `readSome`.
pub data Place : Type 0 where
  ended pausing reading : Place
  rejecting : List ℕ → Place

pub record Pass : Type 0 where
  pub round : Round
  pub world : World
  pub place : Place

-- `parsed > 0 && !submitBatch(...)`; the flag says that the loop goes on.
unfoldable pub submit_found : ℕ → Round → World → World × Bool
unfolding submit_batch
submit_found o r w =
    if r.scan.parsed == 0 then (w, true) else submit_batch o r.bytes (r.scan.parsed % 2 ^ 32) w

unfoldable pub follow : ℕ → Next → World → World × Place
unfolding drain
follow o (drains error) w = (on_session o (drain error) w, Place.ended)
follow o (rejects error n) w = (w, Place.rejecting error)
follow o again w = (w, Place.pausing)
follow o reads w = (w, Place.reading)

-- A refused submission ends the loop before a rejected command is skipped.
unfoldable pub after_submit : ℕ → Round → World × Bool → Pass
unfolding follow after_scan skip_rejected
after_submit o r (w, false) = record { round = r; world = w; place = Place.ended }
after_submit o r (w, true) =
    let r' = skip_rejected r in
    let (v, place) = follow o (after_scan r'.input.readable_bytes r.scan) w in
    record { round = r'; world = v; place = place }

unfoldable pub pass_of : ℕ → World → Option Round → Option Pass
unfolding submit_found after_submit
pass_of o w none = none
pass_of o w (some r) = some (after_submit o r (submit_found o r w))

-- The buffer and the parser are those of session `o`.
unfoldable pub pass :
    {Value : Type 0}
    → Resp Value
    → (ℕ → Bool)
    → CommandRules
    → ℕ
    → ℕ
    → RespParser
    → IoBuffer
    → Store
    → World
    → Option Pass
unfolding find_commands pass_of
pass resp alloc rules o budget p b s w = pass_of o w (find_commands resp alloc rules s budget p b)
