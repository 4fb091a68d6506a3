-- ===== src/Channel/Reading/Giving.antt =====
-- src/backend_channel.cpp: what the notices of a round hold, and that a reply reaches its owner as it is.
use redis_proxy.Base.{
  ℕ, ◌+◌, ◌≤◌, ◌≡◌, refl, ◌∙◌, inl, inr, Bool, true, false, codes, if◌then◌else◌, List, [], ◌∷◌,
  ◌++◌, Option, none, some, arith, All, Bool-cases,
}
use redis_proxy.Status.{Status, protocol_error}
use redis_proxy.Buffer.Store.{Store}
use redis_proxy.Buffer.Chain.{Chain, to_string_for_test}
use redis_proxy.Buffer.IoBuffer.Valid.{Frame}
use redis_proxy.Buffer.IoBuffer.References.{held, Inside, slices_string-Frame}
use redis_proxy.Channel.{
  Channel, Notice, PendingBatch, is_healthy, write_owners, pending_owners, failures,
  fail_connection, deliver, dispatch_front, dispatch_reply, frame_ok, frame_bad,
}

-- The references that the owners hold once they have the replies.
abbrev pub taken : ℕ → List Notice → ℕ
taken q [] = 0
taken q (Notice.reply o c ∷ ns) = held q c.slices + taken q ns
taken q (Notice.failure o status ∷ ns) = taken q ns

-- Every reply among the notices is a chain of the given bytes.
abbrev pub Shown : Store → List ℕ → List Notice → Type 0
Shown t text [] = Unit
Shown t text (Notice.reply o c ∷ ns) =
    (to_string_for_test t c ≡ text) × All (Inside t) c.slices × Shown t text ns
Shown t text (Notice.failure o status ∷ ns) = Shown t text ns

-- No reply is among the notices.
abbrev pub Failing : List Notice → Type 0
Failing [] = Unit
Failing (Notice.reply o c ∷ ns) = ⊥
Failing (Notice.failure o status ∷ ns) = Failing ns

-- A reply goes to one owner, or to none.
pub data Carries (r : Chain) (ns : List Notice) : Type 0 where
  given : (o : ℕ) → ns ≡ Notice.reply o r ∷ [] → Carries r ns
  dropped : Failing ns → Carries r ns

pub taken-append : (q : ℕ) (ms ns : List Notice) → taken q (ms ++ ns) ≡ taken q ms + taken q ns
taken-append q [] ns = omega arith
taken-append q (Notice.reply o c ∷ ms) ns = omega (arith, taken-append q ms ns)
taken-append q (Notice.failure o status ∷ ms) ns = taken-append q ms ns

pub taken-Failing : (q : ℕ) (ns : List Notice) → Failing ns → taken q ns ≡ 0
taken-Failing q [] f = refl
taken-Failing q (Notice.reply o c ∷ ns) f = absurd f
taken-Failing q (Notice.failure o status ∷ ns) f = taken-Failing q ns f

pub Shown-Failing : (t : Store) (text : List ℕ) (ns : List Notice) → Failing ns → Shown t text ns
Shown-Failing t text [] f = tt
Shown-Failing t text (Notice.reply o c ∷ ns) f = absurd f
Shown-Failing t text (Notice.failure o status ∷ ns) f = Shown-Failing t text ns f

-- What the owners hold shows the same after any operation on the buffers of others.
pub Shown-Frame :
    {s t : Store} {mine other : ℕ → ℕ} (text : List ℕ) (ns : List Notice)
    → Frame s t mine other
    → ((q : ℕ) → taken q ns ≤ other q)
    → Shown s text ns
    → Shown t text ns
unfolding to_string_for_test
Shown-Frame text [] f h sh = tt
Shown-Frame text (Notice.reply o c ∷ ns) f h sh =
    let (e, i) = slices_string-Frame c.slices f (λ q. omega (arith, h q)) sh.1 in
    (e ∙ sh.0, i, Shown-Frame text ns f (λ q. omega (arith, h q)) sh.2)
Shown-Frame text (Notice.failure o status ∷ ns) f h sh = Shown-Frame text ns f h sh

failures-Failing : (status : Status) (os : List ℕ) → Failing (failures status os)
unfolding failures
failures-Failing status [] = tt
failures-Failing status (o ∷ os) = failures-Failing status os

fail_connection-Failing : (status : Status) (c : Channel) → Failing (fail_connection status c).1
unfolding fail_connection
fail_connection-Failing status c = elim (Bool-cases (is_healthy c)) [
  | inl up ↦
      rw up
        (failures-Failing status (pending_owners c.pending_queue (write_owners c.write_queue [])))
  | inr down ↦ rw down tt
]

pub frame_bad-Failing : (c : Channel) → Failing (frame_bad c).1
unfolding frame_bad
frame_bad-Failing c = by_health (is_healthy c)
  where
    broken : Status
    broken = protocol_error (codes "bad redis reply")

    by_health : (up : Bool) → Failing (if up then fail_connection broken c else (c, [])).1
    by_health true = fail_connection-Failing broken c
    by_health false = tt

deliver-Carries : (owner : Option ℕ) (r : Chain) → Carries r (deliver owner r)
deliver-Carries none r = dropped tt
deliver-Carries (some o) r = given o refl

dispatch_front-Carries :
    (ps : List PendingBatch) (r : Chain) (c : Channel) → Carries r (dispatch_front ps r c).1
unfolding dispatch_front
dispatch_front-Carries [] r c = dropped (fail_connection-Failing _ c)
dispatch_front-Carries (p ∷ ps) r c = deliver-Carries p.owner r

pub frame_ok-Carries : (r : Chain) (c : Channel) → Carries r (frame_ok r c).1
unfolding frame_ok dispatch_reply
frame_ok-Carries r c = by_health (is_healthy c)
  where
    by_health :
        (up : Bool) → Carries r (if up then dispatch_front c.pending_queue r c else (c, [])).1
    by_health true = dispatch_front-Carries c.pending_queue r c
    by_health false = dropped tt
