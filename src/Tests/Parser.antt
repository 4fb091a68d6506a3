-- ===== src/Tests/Parser.antt =====
-- Runs of src/resp_parser.cpp with a library whose frames have one byte and need two slots.
use redis_proxy.Base.{
  ℕ, ◌+◌, ◌≤◌, ◌<◌, ◌≡◌, refl, sym, ap, ◌∙◌, inl, inr, Bool, true, false, codes, List, [], ◌∷◌,
  Option, none, some, arith, ltb, take, length, Bool-cases,
}
use redis_proxy.Buffer.IoBuffer.{IoBuffer, gather}
use redis_proxy.Rules.{CommandRules, default_rules, set_rule_for_test}
use redis_proxy.Parser.{
  Resp, RespResult, RespStatus, RespLimits, RespParser, ParseStatus, RespFrameInfo, Reply,
  new_parser, max_slots, unpack, unpack_loop, unpack_cut, settle, is_no_memory, peek_frame,
  next_reply_frame,
}
use redis_proxy.Parser.Growth.{Unpacked}
use redis_proxy.Parser.Arena.{
  unpack-Unpacked, Stable, unpack_at_once, unpack-unpack_at_once, unpack_limited,
}
use redis_proxy.Parser.Frames.{Looks, Peeks, peek_frame-Peeks}
use redis_proxy.Parser.Progress.{Consumes}
use redis_proxy.Parser.Replies.{Cuts, next_reply_frame-Cuts}
use redis_proxy.Channel.{Channel, State, new_channel}
use redis_proxy.Channel.Reading.{Replies, read_replies}
use redis_proxy.Channel.Reading.Giving.{taken}
use redis_proxy.Channel.Reading.Rounds.{Feeds}
use redis_proxy.Channel.Reading.Answering.{answer, read_replies-Feeds}
use redis_proxy.Buffer.IoBuffer.Valid.{Valid}
use redis_proxy.Session.Parsing.{scan, first_scan}
use redis_proxy.Session.Parsing.Prefix.{Forwards}
use redis_proxy.Session.Reading.{Round, read_commands}
use redis_proxy.Session.Reading.Input.{peek_text}
use redis_proxy.Session.Reading.Forwarding.{Takes, read_commands-Takes}
use redis_proxy.Tests.Buffer.{nobody, filled, filled-Valid, filled_bytes}

abbrev one_byte : Bool → ℕ → RespResult (List ℕ)
one_byte true c = record { status = RespStatus.k_no_memory; consumed = 0; value = none }
one_byte false c = record { status = RespStatus.k_ok; consumed = 1; value = some (c ∷ []) }

abbrev unpack_byte : List ℕ → ℕ → RespLimits → RespResult (List ℕ)
unpack_byte [] slots limits = record { status = RespStatus.k_need_more; consumed = 0; value = none }
unpack_byte (c ∷ cs) slots limits = one_byte (ltb slots 2) c

abbrev byte_library : Resp (List ℕ)
byte_library = record {
  unpack_one = unpack_byte;
  is_array = λ v. true;
  is_bulk_string = λ v. true;
  elements = λ v. some (v ∷ []);
  text = λ v. v;
}

abbrev plenty : ℕ → Bool
plenty n = true

enough_slots :
    (c a b : ℕ)
    → a ≤ b
    → is_no_memory (one_byte (ltb a 2) c).status ≡ false
    → one_byte (ltb b 2) c ≡ one_byte (ltb a 2) c
enough_slots c a b le h = elim (Bool-cases (ltb a 2)) [
  | inl few ↦ absurd (cc (rw few at h))
  | inr many ↦ ap (λ t. one_byte t c) (still many) ∙ sym (ap (λ t. one_byte t c) many)
]
  where
    still : ltb a 2 ≡ false → ltb b 2 ≡ false
    still many = ground arith

byte_library-Stable : Stable byte_library plenty
byte_library-Stable [] limits a b le h = refl
byte_library-Stable (c ∷ cs) limits a b le h = enough_slots c a b le h

abbrev text : List ℕ
text = 1 ∷ 2 ∷ 3 ∷ 4 ∷ 5 ∷ 6 ∷ []

unpack-Unpacked_example :
    (r : RespResult (List ℕ) × RespParser) × (unpack byte_library plenty new_parser text ≡ some r)
    × Unpacked byte_library plenty new_parser (take new_parser.max_frame_bytes text) r
unpack-Unpacked_example = unpack-Unpacked byte_library plenty new_parser text

unpack-unpack_at_once_example :
    (q : RespParser) × (unpack byte_library plenty new_parser text
      ≡ some
          (unpack_at_once byte_library plenty new_parser.limits new_parser.max_frame_bytes text, q))
    × (q.limits ≡ new_parser.limits)
    × (q.max_frame_bytes ≡ new_parser.max_frame_bytes)
unpack-unpack_at_once_example =
    unpack-unpack_at_once byte_library plenty byte_library-Stable (λ n. refl) new_parser text

-- An arena of three slots is enough for these six bytes.
abbrev unpacked : RespResult (List ℕ) × RespParser
unpacked = (
  record { status = RespStatus.k_ok; consumed = 1; value = some (1 ∷ []) },
  record new_parser { scratch = 3 },
)

text-unpacked : unpack byte_library plenty new_parser text ≡ some unpacked
unfolding unpack unpack_cut unpack_loop settle max_slots new_parser
text-unpacked = refl

unpack_limited_example :
    (unpacked.0.status ≡ RespStatus.k_need_more → length text < new_parser.max_frame_bytes)
    × (unpacked.0.status ≡ RespStatus.k_no_memory → (n : ℕ) × (plenty n ≡ false))
unpack_limited_example = unpack_limited byte_library plenty new_parser text unpacked text-unpacked

peek_frame-Peeks_example :
    (r : (ParseStatus × Option RespFrameInfo) × RespParser × IoBuffer) × (peek_frame byte_library
        plenty new_parser filled.1 filled.0 2
      ≡ some r)
    × Looks byte_library plenty new_parser.limits new_parser.max_frame_bytes
        (gather filled.0 filled.1.blocks)
        2
        r.0
    × Peeks byte_library plenty new_parser filled.1 nobody filled.0 2 r
peek_frame-Peeks_example =
    peek_frame-Peeks byte_library plenty new_parser filled.1 filled.0 2 byte_library-Stable
      (λ n. refl) filled-Valid

next_reply_frame-Cuts_example :
    (y : Reply) × (next_reply_frame byte_library plenty new_parser filled.1 filled.0 ≡ some y)
    × Cuts
        (unpack_at_once byte_library plenty new_parser.limits new_parser.max_frame_bytes
          (gather filled.0 filled.1.blocks))
        filled.1
        nobody
        filled.0
        y
next_reply_frame-Cuts_example =
    next_reply_frame-Cuts byte_library plenty new_parser filled.1 filled.0 byte_library-Stable
      (λ n. refl) filled-Valid (λ q. omega arith)

read_commands-Takes_example :
    let peek =
      peek_text byte_library plenty new_parser.limits new_parser.max_frame_bytes
        (gather filled.0 filled.1.blocks) in
    let x = scan default_rules peek 32 first_scan in
    (r : Round) × (read_commands byte_library plenty default_rules filled.0 32 new_parser filled.1
      ≡ some r)
    × Takes (gather filled.0 filled.1.blocks) nobody x r
    × Forwards default_rules peek 32 x
read_commands-Takes_example =
    read_commands-Takes byte_library plenty default_rules 32 new_parser filled.1 filled.0
      byte_library-Stable (λ n. refl) filled-Valid (λ q. omega arith)

byte_library-Consumes : Consumes byte_library
byte_library-Consumes [] slots limits e = absurd (cc e)
byte_library-Consumes (c ∷ cs) slots limits e = elim (Bool-cases (ltb slots 2)) [
  | inl few ↦ absurd (cc (rw few at e))
  | inr many ↦ rw many (omega arith, omega arith)
]

-- Client 7 waits for six replies of one byte each.
abbrev owing : Channel
owing = record new_channel {
  state = State.ready;
  pending_queue = record { owner = some 7; remaining_replies = 6 } ∷ [];
  queued_commands = 6;
}

filled_length : length (gather filled.0 filled.1.blocks) ≡ 5
filled_length = sym filled-Valid.counted ∙ filled_bytes

read_replies-Feeds_example :
    (r : Replies) × (read_replies byte_library plenty new_parser filled.1 filled.0 owing ≡ some r)
    × Feeds
        (answer byte_library plenty new_parser.limits new_parser.max_frame_bytes)
        r.store
        (gather filled.0 filled.1.blocks)
        owing
        r.channel
        r.notices
        (gather r.store r.input.blocks)
    × Valid r.store (λ q. taken q r.notices + nobody q) r.input
read_replies-Feeds_example =
    read_replies-Feeds byte_library plenty new_parser filled.1 filled.0 owing byte_library-Stable
      (λ n. refl) byte_library-Consumes filled-Valid (λ q. omega (arith, filled_length))

-- Rules that accept the first byte of the text, with one argument.
abbrev byte_rules : CommandRules
byte_rules = set_rule_for_test default_rules (codes "+") (record {
  allowed = true;
  min_argc = 1;
  max_argc = 1;
  read = true;
  write = false;
  dangerous = false;
})
