-- ===== src/Channel/Reading/Rounds.antt =====
-- src/backend_channel.cpp, `readerLoop`: the rounds of the inner loop, given the answer of the library.
use redis_proxy.Base.{
  ℕ, ◌+◌, ◌≡◌, ◌≢◌, refl, sym, ap, subst, true, false, List, [], ◌++◌, Option, some, take, drop,
  arith,
}
use redis_proxy.Buffer.Store.{Store}
use redis_proxy.Buffer.Chain.{Chain, to_string_for_test}
use redis_proxy.Buffer.IoBuffer.{IoBuffer, gather}
use redis_proxy.Buffer.IoBuffer.Valid.{
  SameData-refl, Valid, Valid-ext, Frame, Frame-SameData, Frame-fewer, Frame-trans,
}
use redis_proxy.Parser.{RespResult, RespParser, RespStatus, ParseStatus, Reply, convert, is_ok}
use redis_proxy.Channel.{Channel, Notice, replied, garbled, step, is_healthy, frame_ok, frame_bad}
use redis_proxy.Channel.Reading.{Replies, add_notices, stay, hand_over, read_frame}
use redis_proxy.Channel.Reading.Giving.{
  taken, Shown, taken-append, taken-Failing, Shown-Frame, frame_bad-Failing,
}
use redis_proxy.Channel.Reading.Dropping.{Handed}

-- What becomes of a channel and of the bytes that it has read, given what a text is for the library and the
-- blocks at the end: the replies at the front reach the channel one by one, and the owner of a reply, if
-- it has one, has a chain that shows its bytes at the end; this goes on up to where a reply is not complete, the text
-- is no reply, or the connection has failed. The channel, the notices and the bytes that are left.
pub data Feeds {Value : Type 0} (answer : List ℕ → RespResult Value) (t : Store)
    : List ℕ → Channel → Channel → List Notice → List ℕ → Type 0 where
  down : {text : List ℕ} {c : Channel} → is_healthy c ≡ false → Feeds answer t text c c [] text
  waits :
      {text : List ℕ} {c : Channel}
      → is_healthy c ≡ true
      → (answer text).status ≡ RespStatus.k_need_more
      → Feeds answer t text c c [] text
  breaks :
      {text : List ℕ} {c : Channel}
      → is_healthy c ≡ true
      → (answer text).status ≢ RespStatus.k_ok
      → (answer text).status ≢ RespStatus.k_need_more
      → Feeds answer t text c (step c garbled).0 (step c garbled).1 text
  answers :
      {text left : List ℕ} {c d : Channel} {ns : List Notice} (r : Chain)
      → is_healthy c ≡ true
      → (answer text).status ≡ RespStatus.k_ok
      → Shown t (take (answer text).consumed text) (step c (replied r)).1
      → Feeds answer t (drop (answer text).consumed text) (step c (replied r)).0 d ns left
      → Feeds answer t text c d ((step c (replied r)).1 ++ ns) left

-- `answer` is what a text is for the library.
module _ {Value : Type 0} (answer : List ℕ → RespResult Value) where
  -- The loop has returned, with every reply at the front handed out; the owners hold exactly the replies they
  -- were given, and the buffer is valid.
  pub record Done (other : ℕ → ℕ) (s : Store) (text : List ℕ) (c : Channel) (o : Option Replies)
      : Type 0 where
    pub replies : Replies
    pub returned : o ≡ some replies
    pub feeds :
        Feeds answer replies.store text c replies.channel replies.notices
          (gather replies.store replies.input.blocks)
    pub valid : Valid replies.store (λ q. taken q replies.notices + other q) replies.input
    pub frame : Frame s replies.store (λ q. 1) other

  pub unchanged : {other : ℕ → ℕ} (s : Store) → Frame s s (λ q. 1) other
  unchanged s = Frame-SameData (λ q k. SameData-refl (s.block q))

  broken-Done :
      {other : ℕ → ℕ} (text : List ℕ) (c : Channel) (y : Reply)
      → is_healthy c ≡ true
      → (answer text).status ≢ RespStatus.k_ok
      → (answer text).status ≢ RespStatus.k_need_more
      → gather y.store y.input.blocks ≡ text
      → Valid y.store other y.input
      → Done other y.store text c (some (stay (frame_bad c).1 (frame_bad c).0 y))
  unfolding step
  broken-Done text c y up not_ok not_short e v = record {
    replies = stay (frame_bad c).1 (frame_bad c).0 y;
    returned = refl;
    feeds =
        subst (Feeds answer y.store text c (step c garbled).0 (step c garbled).1) (sym e)
          (breaks up not_ok not_short);
    valid =
        Valid-ext _ v (λ q. omega (arith, taken-Failing q (frame_bad c).1 (frame_bad-Failing c)));
    frame = unchanged y.store;
  }

  pub quiet-Done :
      {other : ℕ → ℕ} (rest : RespParser → IoBuffer → Store → Channel → Option Replies)
      (st : RespStatus) (f : Option (Chain × ℕ)) (text : List ℕ) (c : Channel) (y : Reply)
      → is_ok st ≡ false
      → (answer text).status ≡ st
      → is_healthy c ≡ true
      → gather y.store y.input.blocks ≡ text
      → Valid y.store other y.input
      → Done other y.store text c (read_frame rest (convert st) f c y)
  unfolding read_frame convert
  quiet-Done rest RespStatus.k_ok f text c y no_ok at up e v = absurd (cc no_ok)
  quiet-Done {other} rest RespStatus.k_need_more f text c y no_ok at up e v = record {
    replies = stay [] c y;
    returned = refl;
    feeds = subst (Feeds answer y.store text c c []) (sym e) (waits up at);
    valid = Valid-ext _ v (λ q. omega arith);
    frame = unchanged y.store;
  }
  quiet-Done rest RespStatus.k_error f text c y no_ok at up e v =
      broken-Done text c y up (λ z. cc (at, z)) (λ z. cc (at, z)) e v
  quiet-Done rest RespStatus.k_no_memory f text c y no_ok at up e v =
      broken-Done text c y up (λ z. cc (at, z)) (λ z. cc (at, z)) e v

  -- A reply before the rest of the loop.
  pub reply_taken-Done :
      {other : ℕ → ℕ} (s : Store) (rest : RespParser → IoBuffer → Store → Channel → Option Replies)
      (text : List ℕ) (r : Chain) (n : ℕ) (c : Channel) (y : Reply)
      → Handed r (frame_ok r c).1 other y.input y.store (hand_over (frame_ok r c).1 r y.store)
      → Frame s y.store (λ q. 1) other
      → is_healthy c ≡ true
      → (answer text).status ≡ RespStatus.k_ok
      → to_string_for_test y.store r ≡ take (answer text).consumed text
      → Done
          (λ q. taken q (frame_ok r c).1 + other q)
          (hand_over (frame_ok r c).1 r y.store)
          (drop (answer text).consumed text)
          (frame_ok r c).0
          (rest y.parser y.input (hand_over (frame_ok r c).1 r y.store) (frame_ok r c).0)
      → Done other s text c (read_frame rest ParseStatus.k_ok (some (r, n)) c y)
  unfolding read_frame step
  reply_taken-Done {other} s rest text r n c y h f up ok shown d = record {
    replies = record d.replies { notices = (frame_ok r c).1 ++ d.replies.notices };
    returned = ap (add_notices (frame_ok r c).1) d.returned;
    feeds =
        answers r up ok
          (subst (λ t. Shown d.replies.store t (frame_ok r c).1) shown
            (Shown-Frame _ (frame_ok r c).1 d.frame (λ q. omega arith) h.shown))
          d.feeds;
    valid =
        Valid-ext _ d.valid (λ q. omega (arith, taken-append q (frame_ok r c).1 d.replies.notices));
    frame =
        Frame-trans f
          (Frame-trans h.frame (Frame-fewer other d.frame (λ q. omega arith))
            (λ q k m. absurd (omega (arith, m))))
          (λ q k m. absurd (omega (arith, m)));
  }
