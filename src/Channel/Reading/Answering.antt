-- ===== src/Channel/Reading/Answering.antt =====
-- src/backend_channel.cpp, `readerLoop`: the bytes of the backend, reply by reply.
use redis_proxy.Base.{
  ℕ, zero, suc, ◌+◌, ◌^◌, ◌≤◌, ◌<◌, ◌≡◌, refl, sym, ap, ap₂, subst, ◌∙◌, inl, inr, Bool, true, List,
  [], Option, some, length, length-drop, arith, Bool-cases,
}
use redis_proxy.Buffer.Store.{Store}
use redis_proxy.Buffer.IoBuffer.{IoBuffer, gather}
use redis_proxy.Buffer.IoBuffer.Valid.{Valid, Valid-ext, any_Frame}
use redis_proxy.Parser.{Resp, RespResult, RespLimits, RespParser, Reply}
use redis_proxy.Parser.Arena.{Stable, unpack_at_once}
use redis_proxy.Parser.Progress.{Consumes, unpack_at_once-Consumes}
use redis_proxy.Parser.Replies.{Cuts, next_reply_frame-Framed}
use redis_proxy.Channel.{Channel, Notice, is_healthy, frame_ok}
use redis_proxy.Channel.Reading.{Replies, hand_over, read_frame, read_next, read_loop, read_replies}
use redis_proxy.Channel.Reading.Giving.{taken, frame_ok-Carries}
use redis_proxy.Channel.Reading.Dropping.{Handed, hand_over-Handed}
use redis_proxy.Channel.Reading.Rounds.{Feeds, down, Done, unchanged, quiet-Done, reply_taken-Done}

module _ {Value : Type 0} (resp : Resp Value) (alloc : ℕ → Bool) (limits : RespLimits)
    (max_frame_bytes : ℕ) where
  -- The answer of the library for a text, with the limits of the channel's parser.
  abbrev pub answer : List ℕ → RespResult Value
  answer text = unpack_at_once resp alloc limits max_frame_bytes text

  module _ (stable : Stable resp alloc) (room : (n : ℕ) → alloc n ≡ true)
      (consumes : Consumes resp) where
    round-Done :
        {other : ℕ → ℕ} (rest : RespParser → IoBuffer → Store → Channel → Option Replies)
        (b : IoBuffer) (s : Store) (c : Channel) (y : Reply)
        → Valid s other b
        → is_healthy c ≡ true
        → Cuts (answer (gather s b.blocks)) b other s y
        → ((later : ℕ → ℕ) (t : Store) (d : Channel)
            → Valid t later y.input
            → ((q : ℕ) → later q ≤ suc (other q))
            → length (gather t y.input.blocks) < length (gather s b.blocks)
            → Done answer later t (gather t y.input.blocks) d (rest y.parser y.input t d))
        → Done answer other s (gather s b.blocks) c (read_frame rest y.status y.frame c y)
    round-Done {other} rest b s c y v up
          (Cuts.nothing no_ok st none_cut same_store same_blocks valid) later =
        subst
          (λ t. Done answer other t (gather s b.blocks) c (read_frame rest y.status y.frame c y))
          same_store
          (subst (Done answer other y.store (gather s b.blocks) c)
            (ap (λ z. read_frame rest z y.frame c y) (sym st))
            (quiet-Done answer rest (answer (gather s b.blocks)).status y.frame (gather s b.blocks)
              c y no_ok refl up (ap₂ gather same_store same_blocks)
              (subst (λ t. Valid t other y.input) (sym same_store) valid)))
    round-Done {other} rest b s c y v up
          (Cuts.cut r ok st cut_off text left inside light valid frame) later =
        subst (Done answer other s (gather s b.blocks) c)
          (ap₂ (λ z f. read_frame rest z f c y) (sym st) (sym cut_off))
          (reply_taken-Done answer s rest (gather s b.blocks) r _ c y h (any_Frame frame) up ok text
            (subst
              (λ t.
                Done answer (λ q. taken q ns + other q) handed t (frame_ok r c).0
                  (rest y.parser y.input handed (frame_ok r c).0))
              (h.bytes ∙ left)
              (later (λ q. taken q ns + other q) handed (frame_ok r c).0 h.valid
                (λ q. omega (arith, h.little q, light q)) shorter)))
      where
        ns : List Notice
        ns = (frame_ok r c).1

        handed : Store
        handed = hand_over ns r y.store

        h : Handed r ns other y.input y.store handed
        h = hand_over-Handed ns r y.input y.store (frame_ok-Carries r c) inside valid

        some_taken :
            (0 < (answer (gather s b.blocks)).consumed)
            × ((answer (gather s b.blocks)).consumed ≤ length (gather s b.blocks))
        some_taken =
            unpack_at_once-Consumes resp alloc limits max_frame_bytes (gather s b.blocks) consumes
              ok

        shorter : length (gather handed y.input.blocks) < length (gather s b.blocks)
        shorter = omega (
          arith,
          ap length (h.bytes ∙ left),
          length-drop (answer (gather s b.blocks)).consumed (gather s b.blocks),
          some_taken.0,
          some_taken.1,
        )

    read_loop-Done :
        {other : ℕ → ℕ} (fuel : ℕ) (p : RespParser) (b : IoBuffer) (s : Store) (c : Channel)
        → p.limits ≡ limits
        → p.max_frame_bytes ≡ max_frame_bytes
        → Valid s other b
        → ((q : ℕ) → other q + fuel + 2 < 2 ^ 32)
        → length (gather s b.blocks) < fuel
        → Done answer other s (gather s b.blocks) c (read_loop resp alloc fuel p b s c)
    unfolding read_loop read_next
    read_loop-Done zero p b s c l m v few h = absurd (omega (arith, h))
    read_loop-Done {other} (suc fuel) p b s c l m v few h = elim (Bool-cases (is_healthy c)) [
      | inr no_up ↦ rw no_up (record {
        replies = record { channel = c; notices = []; parser = p; input = b; store = s };
        returned = refl;
        feeds = down no_up;
        valid = Valid-ext _ v (λ q. omega arith);
        frame = unchanged answer s;
      })
      | inl up ↦
          let (y, e, cuts, pl, pm) =
            next_reply_frame-Framed resp alloc p b s stable room v (λ q. omega (arith, few q)) in
          rw up (
            subst
              (λ o.
                Done answer other s (gather s b.blocks) c
                  (read_next (read_loop resp alloc fuel) c o))
              (sym e)
              (round-Done (read_loop resp alloc fuel) b s c y v up
                (subst (λ x. Cuts x b other s y)
                  (ap₂ (λ i j. unpack_at_once resp alloc i j (gather s b.blocks)) l m) cuts)
                (λ later t d valid little shorter.
                  read_loop-Done fuel y.parser y.input t d (pl ∙ l) (pm ∙ m) valid
                    (λ q. omega (arith, few q, little q)) (omega (arith, h, shorter)))))
    ]

-- If the answer of the library does not depend on spare slots, a complete value takes some of the bytes given,
-- every allocation succeeds, and no block comes near 2 ^ 32 references, the inner loop of `readerLoop`
-- over a valid buffer ends. The replies at the front of what the buffer shows have then reached the channel one
-- by one, in order, up to where a reply is not complete, the bytes are no reply, which fails the
-- connection, or the connection is down; the other bytes stay in the buffer. Each reply that has an owner was given
-- to it as a chain that, when the loop has ended, shows exactly the bytes of the reply. The buffer is valid
-- then, and the reference counts are those of the buffer, of the replies given to owners, and of
-- what others held before.
pub read_replies-Feeds :
    {Value : Type 0} (resp : Resp Value) (alloc : ℕ → Bool) {other : ℕ → ℕ} (p : RespParser)
    (b : IoBuffer) (s : Store) (c : Channel)
    → Stable resp alloc
    → ((n : ℕ) → alloc n ≡ true)
    → Consumes resp
    → Valid s other b
    → ((q : ℕ) → other q + length (gather s b.blocks) + 3 < 2 ^ 32)
    → (r : Replies) × (read_replies resp alloc p b s c ≡ some r)
      × Feeds
          (answer resp alloc p.limits p.max_frame_bytes)
          r.store
          (gather s b.blocks)
          c
          r.channel
          r.notices
          (gather r.store r.input.blocks)
      × Valid r.store (λ q. taken q r.notices + other q) r.input
unfolding read_replies
read_replies-Feeds resp alloc p b s c stable room consumes v few =
    let d =
      read_loop-Done resp alloc p.limits p.max_frame_bytes stable room consumes
        (suc b.readable_bytes) p b s c refl refl v (λ q. omega (arith, few q, v.counted))
        (omega (arith, v.counted)) in
    (d.replies, d.returned, d.feeds, d.valid)
