-- ===== src/Parser.antt =====
-- src/resp_parser.cpp and include/redis_proxy/resp_parser.h: the adapter to the RESP library. That
-- library is a `Resp`: `UnpackOne` as a function of the input, the number of slots in the arena and
-- the limits, and what the source reads of a value.
pub mod Growth
pub mod Settling
pub mod Arena
pub mod Commands
pub mod Frames
pub mod Progress
pub mod Replies
use redis_proxy.Base.{
  ℕ, zero, suc, ◌+◌, ◌-◌, ◌*◌, ◌/◌, ◌^◌, Bool, true, false, List, [], ◌∷◌, Option, none, some, min,
  ◌==◌, leb, ltb, if◌then◌else◌, length, take, drop,
}
use redis_proxy.Buffer.Store.{Store}
use redis_proxy.Buffer.Chain.{Chain, empty_chain}
use redis_proxy.Buffer.IoBuffer.{IoBuffer, readable_view, slice_prefix}

-- `redis::RespStatus`.
pub data RespStatus : Type 0 where
  k_ok k_need_more k_no_memory k_error : RespStatus

-- The fields of `redis::RespLimits` that the source sets.
pub record RespLimits : Type 0 where
  pub max_bulk_bytes : ℕ
  pub max_array_elements : ℕ
  pub max_depth : ℕ

-- `redis::RespResult`; `value` is a pointer.
pub record RespResult (Value : Type 0) : Type 0 where
  pub status : RespStatus
  pub consumed : ℕ
  pub value : Option Value

pub record Resp (Value : Type 0) : Type 0 where
  -- `UnpackOne(input, arena, slots, limits)`.
  pub unpack_one : List ℕ → ℕ → RespLimits → RespResult Value
  pub is_array : Value → Bool
  pub is_bulk_string : Value → Bool
  -- The `element_count` values at `elements`, if that is not null.
  pub elements : Value → Option (List Value)
  pub text : Value → List ℕ

pub data ParseStatus : Type 0 where
  k_ok k_need_more k_error k_no_memory : ParseStatus

pub record RespFrameInfo : Type 0 where
  pub consumed : ℕ
  pub command_name : List ℕ
  pub argc : ℕ

-- `scratch` is the size of the arena.
pub record RespParser : Type 0 where
  pub limits : RespLimits
  pub scratch : ℕ
  pub max_frame_bytes : ℕ

-- `std::numeric_limits<std::size_t>::max()`.
abbrev pub size_max : ℕ
size_max = 2 ^ 64 - 1

unfoldable pub set_limits : ℕ → ℕ → ℕ → ℕ → RespParser → RespParser
set_limits max_bulk_bytes max_array_elements max_depth max_frame_bytes p = record p {
  limits = record {
    max_bulk_bytes = max_bulk_bytes;
    max_array_elements = max_array_elements;
    max_depth = max_depth;
  };
  max_frame_bytes = max_frame_bytes;
}

-- The constructor, whose `setLimits` sets every limit.
unfoldable pub new_parser : RespParser
new_parser = record {
  limits = record { max_bulk_bytes = 1024 * 1024; max_array_elements = 1024; max_depth = 8 };
  scratch = 0;
  max_frame_bytes = size_max;
}

unfoldable pub max_slots : List ℕ → ℕ
max_slots input = length input / 3 + 1

unfoldable pub convert : RespStatus → ParseStatus
convert RespStatus.k_ok = ParseStatus.k_ok
convert RespStatus.k_need_more = ParseStatus.k_need_more
convert RespStatus.k_no_memory = ParseStatus.k_no_memory
convert RespStatus.k_error = ParseStatus.k_error

abbrev pub is_ok : RespStatus → Bool
is_ok RespStatus.k_ok = true
is_ok _ = false

abbrev pub is_no_memory : RespStatus → Bool
is_no_memory RespStatus.k_no_memory = true
is_no_memory _ = false

-- `if (result.status == kNoMemory) result.status = kNeedMore`, once the arena is as large as it gets.
abbrev pub need_more_if_full : RespStatus → RespStatus
need_more_if_full RespStatus.k_no_memory = RespStatus.k_need_more
need_more_if_full st = st

-- `if (result.status == kNeedMore && input.size() >= max_frame_bytes_) result.status = kError`.
abbrev pub error_if_long : Bool → RespStatus → RespStatus
error_if_long true RespStatus.k_need_more = RespStatus.k_error
error_if_long long st = st

-- What `nextReplyFrame` gives: the status, `*out` with `*consumed` where they are written, and the state.
pub record Reply : Type 0 where
  pub status : ParseStatus
  pub frame : Option (Chain × ℕ)
  pub parser : RespParser
  pub input : IoBuffer
  pub store : Store

-- `alloc n` says whether the arena can be resized to `n` slots; the exception is caught.
module _ {Value : Type 0} (resp : Resp Value) (alloc : ℕ → Bool) where
  abbrev pub no_memory_result : RespResult Value
  no_memory_result = record { status = RespStatus.k_no_memory; consumed = 0; value = none }

  -- The end of a round that does not go on.
  unfoldable pub settle : ℕ → List ℕ → RespResult Value → RespResult Value
  settle max_frame_bytes input r = record r {
    status = error_if_long (leb max_frame_bytes (length input)) (need_more_if_full r.status);
  }

  -- The loop on fuel, with the result and the arena. `none` means that the fuel ran out.
  unfoldable pub unpack_loop : ℕ → RespParser → List ℕ → Option (RespResult Value × RespParser)
  unfolding max_slots settle
  unpack_loop zero p input = none
  unpack_loop (suc fuel) p input =
      let slots = min p.scratch (max_slots input) in
      let r = resp.unpack_one input slots p.limits in
      let more = slots + min slots (max_slots input - slots) in
      let again = unpack_loop fuel (record p { scratch = more }) input in
      if is_no_memory r.status
      then (if ltb slots (max_slots input)
          then (if alloc more then again else some (no_memory_result, p))
          else some (settle p.max_frame_bytes input r, p))
      else some (settle p.max_frame_bytes input r, p)

  -- `input` is what is left of it after the cut at `max_frame_bytes_`.
  unfoldable pub unpack_cut : RespParser → List ℕ → Option (RespResult Value × RespParser)
  unfolding unpack_loop max_slots
  unpack_cut p input =
      let first = min 16 (max_slots input) in
      if p.scratch == 0
      then (if alloc first
          then unpack_loop (max_slots input) (record p { scratch = first }) input
          else some (no_memory_result, p))
      else unpack_loop (max_slots input) p input

  unfoldable pub unpack : RespParser → List ℕ → Option (RespResult Value × RespParser)
  unfolding unpack_cut
  unpack p input = unpack_cut p (take p.max_frame_bytes input)

  -- The loop over the elements.
  unfoldable pub all_bulk_strings : List Value → Bool
  all_bulk_strings [] = true
  all_bulk_strings (v ∷ vs) =
      let rest = all_bulk_strings vs in if resp.is_bulk_string v then rest else false

  -- What is written to `out`, if the value is a command.
  unfoldable pub command_of : Option (List Value) → Option RespFrameInfo
  unfolding all_bulk_strings
  command_of none = none
  command_of (some []) = none
  command_of (some (v ∷ vs)) =
      if all_bulk_strings (v ∷ vs)
      then some (record { consumed = 0; command_name = resp.text v; argc = suc (length vs) })
      else none

  unfoldable pub extract_command_info : Value → Option RespFrameInfo
  unfolding command_of
  extract_command_info v = if resp.is_array v then command_of (resp.elements v) else none

  -- The value that a result points to. An `ok` result points to one.
  unfoldable pub extract_from : Option Value → Option RespFrameInfo
  unfolding extract_command_info
  extract_from none = none
  extract_from (some v) = extract_command_info v

  unfoldable pub framed : ℕ → Option RespFrameInfo → ParseStatus × Option RespFrameInfo
  framed consumed none = (ParseStatus.k_error, none)
  framed consumed (some info) = (ParseStatus.k_ok, some (record info { consumed = consumed }))

  -- The rest of `peekFrame` after `unpack`: the status, and what is written to `out`.
  unfoldable pub frame_of : RespResult Value → ParseStatus × Option RespFrameInfo
  unfolding framed extract_from
  frame_of r =
      if is_ok r.status then framed r.consumed (extract_from r.value) else (convert r.status, none)

  -- `none` where the loop of `unpack` runs out of fuel.
  abbrev pub peeked :
      IoBuffer
      → Option (RespResult Value × RespParser)
      → Option ((ParseStatus × Option RespFrameInfo) × RespParser × IoBuffer)
  peeked b none = none
  peeked b (some (r, p)) = some (frame_of r, p, b)

  -- `peekFrame`: the status with what is written to `out`, the parser, and the buffer, whose cached copy
  -- may be new.
  unfoldable pub peek_frame :
      RespParser
      → IoBuffer
      → Store
      → ℕ
      → Option ((ParseStatus × Option RespFrameInfo) × RespParser × IoBuffer)
  unfolding unpack frame_of
  peek_frame p b s offset =
      if ltb b.readable_bytes offset
      then some ((ParseStatus.k_error, none), p, b)
      else (let (b', view) = readable_view b s in peeked b' (unpack p (drop offset view)))

  unfoldable pub cut_reply : RespResult Value → RespParser → IoBuffer → Store → Reply
  cut_reply r p b s =
      if is_ok r.status
      then (let (s', b', c) = slice_prefix r.consumed b s in
          record {
            status = ParseStatus.k_ok;
            frame = some (c, r.consumed);
            parser = p;
            input = b';
            store = s';
          })
      else record { status = convert r.status; frame = none; parser = p; input = b; store = s }

  abbrev pub replied : IoBuffer → Store → Option (RespResult Value × RespParser) → Option Reply
  replied b s none = none
  replied b s (some (r, p)) = some (cut_reply r p b s)

  unfoldable pub next_reply_frame : RespParser → IoBuffer → Store → Option Reply
  unfolding unpack cut_reply
  next_reply_frame p b s = let (b', view) = readable_view b s in replied b' s (unpack p view)
