-- ===== src/Channel/Reading.antt =====
-- src/backend_channel.cpp, `readerLoop`: the inner loop over the input buffer of the channel and its parser,
-- with `dispatchReply` for each reply that was cut off. The calls into the owners, which
-- take the reply over, are the notices of Channel.antt.
pub mod Giving
pub mod Dropping
pub mod Rounds
pub mod Answering
use redis_proxy.Base.{
  ℕ, zero, suc, Bool, true, false, List, [], ◌∷◌, ◌++◌, Option, none, some, if◌then◌else◌,
}
use redis_proxy.Buffer.Store.{Store}
use redis_proxy.Buffer.Chain.{Chain, Slice, empty_chain, reset}
use redis_proxy.Buffer.IoBuffer.{IoBuffer}
use redis_proxy.Parser.{Resp, RespParser, ParseStatus, Reply, next_reply_frame}
use redis_proxy.Channel.{Channel, Notice, is_healthy, frame_ok, frame_bad}

-- The channel after the loop with the notices, the parser, the input buffer and the blocks.
pub record Replies : Type 0 where
  pub channel : Channel
  pub notices : List Notice
  pub parser : RespParser
  pub input : IoBuffer
  pub store : Store

abbrev pub add_notices : List Notice → Option Replies → Option Replies
add_notices ns none = none
add_notices ns (some r) = some (record r { notices = ns ++ r.notices })

-- The destructor of a chain.
unfoldable pub discard : List Slice → Store → Store
unfolding reset
discard [] s = s
discard (x ∷ xs) s = discard xs (reset x s).0

-- A reply is moved to its owner, or goes out of scope.
unfoldable pub hand_over : List Notice → Chain → Store → Store
unfolding discard
hand_over [] r s = discard r.slices s
hand_over (Notice.reply o c ∷ ns) r s = s
hand_over (Notice.failure o status ∷ ns) r s = discard r.slices s

-- `reply`, which starts empty.
abbrev reply_of : Option (Chain × ℕ) → Chain
reply_of none = empty_chain
reply_of (some (c, n)) = c

abbrev pub stay : List Notice → Channel → Reply → Replies
stay ns c y = record {
  channel = c;
  notices = ns;
  parser = y.parser;
  input = y.input;
  store = y.store;
}

-- A round with the status of `nextReplyFrame`, given the rest of the loop.
unfoldable pub read_frame :
    (RespParser → IoBuffer → Store → Channel → Option Replies)
    → ParseStatus
    → Option (Chain × ℕ)
    → Channel
    → Reply
    → Option Replies
unfolding frame_ok frame_bad hand_over
read_frame rest ParseStatus.k_need_more f c y = some (stay [] c y)
read_frame rest ParseStatus.k_ok f c y =
    let (c', ns) = frame_ok (reply_of f) c in
    add_notices ns (rest y.parser y.input (hand_over ns (reply_of f) y.store) c')
read_frame rest ParseStatus.k_error f c y = let (c', ns) = frame_bad c in some (stay ns c' y)
read_frame rest ParseStatus.k_no_memory f c y = let (c', ns) = frame_bad c in some (stay ns c' y)

unfoldable pub read_next :
    (RespParser → IoBuffer → Store → Channel → Option Replies)
    → Channel
    → Option Reply
    → Option Replies
unfolding read_frame
read_next rest c none = none
read_next rest c (some y) = read_frame rest y.status y.frame c y

module _ {Value : Type 0} (resp : Resp Value) (alloc : ℕ → Bool) where
  -- The loop on fuel: `none` means that it, or `unpack`, ran out.
  unfoldable pub read_loop : ℕ → RespParser → IoBuffer → Store → Channel → Option Replies
  unfolding read_next is_healthy
  read_loop zero p b s c = none
  read_loop (suc fuel) p b s c =
      if is_healthy c
      then read_next (read_loop fuel) c (next_reply_frame resp alloc p b s)
      else some (record { channel = c; notices = []; parser = p; input = b; store = s })

  unfoldable pub read_replies : RespParser → IoBuffer → Store → Channel → Option Replies
  unfolding read_loop
  read_replies p b s c = read_loop (suc b.readable_bytes) p b s c
