-- ===== src/Tests/Session.antt =====
-- Runs of src/client_session.cpp: two channels, of which the first comes up, and session 5.
use redis_proxy.Base.{
  zero, suc, codes, true, false, [], ◌∷◌, none, some, ◌≡◌, ◌≢◌, refl, arith, get_elem?,
}
use redis_proxy.Status.{status_ok}
use redis_proxy.Buffer.Chain.{empty_chain}
use redis_proxy.Channel.{
  Channel, Event, Notice, State, new_channel, start, step, is_stopped, is_healthy, frame_ok,
  dispatch_reply, dispatch_front, submit as submit_channel, writer_round as channel_round,
  take_batch,
}
use redis_proxy.Channel.Connection.{connected}
use redis_proxy.Pool.{pick, less_loaded, select, submit as submit_pool, submit_at, submit_to}
use redis_proxy.Pool.Submission.{Submits, submit-Submits}
use redis_proxy.Session.{
  Session, World, new_session, submit_batch, settle, channel_step, channel_step_at, deliver_all,
}
use redis_proxy.Session.Stepping.{put}
use redis_proxy.Session.Delivery.{WorldIsValid}
use redis_proxy.Session.Submitting.{Ends, submit_batch-Ends}
use redis_proxy.Session.Moves.{Move, Run, stay, go, new_world, Run-IsValid}
use redis_proxy.Session.Loops.{writer_round}
use redis_proxy.Session.Output.{Begins, writer_round-Begins}
use redis_proxy.Rules.{default_rules}
use redis_proxy.Session.Parsing.{Peek, ParseStatus, scan, first_scan}
use redis_proxy.Session.Parsing.Prefix.{Forwards, scan-Forwards}
use redis_proxy.Session.Replies.{reply-Expected}

abbrev pub started : Channel
started = start new_channel

abbrev pub up : Channel
up = connected status_ok started

-- After `start`, after the connection, after a batch of two commands, and after it was taken up.
abbrev pub w1 : World
w1 = put 0 started (new_world 2)

abbrev pub w2 : World
w2 = put 0 up w1

abbrev w3 : World
w3 = (submit_batch 5 empty_chain 2 w2).0

abbrev w4 : World
w4 = channel_step 0 Event.took w3

history : Run (new_world 2) w4
unfolding new_world start connected is_stopped new_session new_channel
history =
    go
      (go
        (go (go stay (Move.starts 0 new_channel refl refl))
          (Move.connects 0 started status_ok refl refl refl))
        (Move.submits 5 empty_chain 2 (omega arith) (omega arith) refl refl))
      (Move.runs 0 Event.took tt refl)

Run-IsValid_example : WorldIsValid w4
Run-IsValid_example = Run-IsValid 2 w4 history

abbrev asked : Channel
asked = record up {
  pending_queue = record { owner = some 5; remaining_replies = 2 } ∷ [];
  writer_signal = record { pending = true; waiting = false };
  queued_commands = 2;
}

asked_at : get_elem? w4.channels 0 ≡ some asked
unfolding new_world start connected is_stopped new_session new_channel submit_batch settle
    submit_pool submit_to submit_at select pick less_loaded submit_channel is_healthy channel_step
    channel_step_at deliver_all step channel_round take_batch redis_proxy.Channel.after_round
asked_at = refl

asked_replies : (step asked (Event.replied empty_chain)).1 ≡ Notice.reply 5 empty_chain ∷ []
unfolding step frame_ok dispatch_reply dispatch_front is_healthy start connected new_channel
    is_stopped
asked_replies = refl

reply-Expected_example :
    ((w4.sessions 5).current_backend ≡ some 0)
    × ((w4.sessions 5).pending_replies ≢ 0)
    × ((w4.sessions 5).state ≢ redis_proxy.Session.State.aborted)
reply-Expected_example =
    reply-Expected w4 0 asked (Event.replied empty_chain) 5 empty_chain []
      (Run-IsValid 2 w4 history) asked_at asked_replies

submit_batch-Ends_example : Ends 5 empty_chain 2 w2 (submit_batch 5 empty_chain 2 w2)
submit_batch-Ends_example = submit_batch-Ends 5 empty_chain 2 w2

submit-Submits_example :
    Submits
      (some 5)
      none
      empty_chain
      2
      w2.channels
      (submit_pool (some 5) none empty_chain 2 w2.channels)
submit-Submits_example = submit-Submits (some 5) none empty_chain 2 w2.channels (omega arith)

-- A session that drains after its last reply.
abbrev last_words : Session
last_words = record new_session { state = redis_proxy.Session.State.draining; final_error = 7 ∷ [] }

writer_round-Begins_example : Begins empty_chain last_words (writer_round empty_chain last_words)
writer_round-Begins_example = writer_round-Begins empty_chain last_words

-- An input of two frames of 14 bytes: the second one is incomplete.
abbrev ping_once : Peek
ping_once zero = (ParseStatus.k_ok, record { consumed = 14; command_name = codes "ping"; argc = 1 })
ping_once (suc n) = (ParseStatus.k_need_more, record { consumed = 0; command_name = []; argc = 0 })

scan-Forwards_example :
    Forwards default_rules ping_once 32 (scan default_rules ping_once 32 first_scan)
scan-Forwards_example = scan-Forwards default_rules ping_once 32
