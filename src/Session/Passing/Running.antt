-- ===== src/Session/Passing/Running.antt =====
-- src/client_session.cpp, `readerLoop`: what a whole round takes, submits and does next.
use redis_proxy.Base.{ℕ, ◌≡◌, Bool, true, false, List}
use redis_proxy.Buffer.Store.{Store}
use redis_proxy.Buffer.IoBuffer.{IoBuffer}
use redis_proxy.Buffer.IoBuffer.Valid.{Valid}
use redis_proxy.Rules.{CommandRules}
use redis_proxy.Session.{World, drain}
use redis_proxy.Session.Loops.{on_session}
use redis_proxy.Session.Parsing.{Peek, Scan, Next, drains, rejects, again, reads}
use redis_proxy.Session.Parsing.Outcome.{Follows}
use redis_proxy.Session.Reading.Forwarding.{Found, Takes}
use redis_proxy.Session.Passing.{Place, Pass}

-- What is done next to the sessions and channels, and where the loop is then.
abbrev Acts : ℕ → Next → World → Pass → Type 0
Acts o (drains error) w r = (r.world ≡ on_session o (drain error) w) × (r.place ≡ Place.ended)
Acts o (rejects error n) w r = (r.world ≡ w) × (r.place ≡ Place.rejecting error)
Acts o again w r = (r.world ≡ w) × (r.place ≡ Place.pausing)
Acts o reads w r = (r.world ≡ w) × (r.place ≡ Place.reading)

-- How a round goes on from the end of the submission.
pub data Continues (rules : CommandRules) (peek : Peek) (o budget : ℕ) (text : List ℕ)
    (other : ℕ → ℕ) (x : Scan) (m : World × Bool) (r : Pass) : Type 0 where
  gives_up :
      m.1 ≡ false
      → Found text other x r.round
      → r.world ≡ m.0
      → r.place ≡ Place.ended
      → Continues rules peek o budget text other x m r
  goes_on :
      (n : Next)
      → m.1 ≡ true
      → Takes text other x r.round
      → Follows rules peek budget x r.round.input.readable_bytes n
      → Acts o n m.0 r
      → Continues rules peek o budget text other x m r
