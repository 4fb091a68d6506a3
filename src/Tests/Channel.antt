-- ===== src/Tests/Channel.antt =====
-- A connection with two clients, as in tests/backend_channel_test.cpp.
use redis_proxy.Base.{◌≡◌, refl, false, [], ◌∷◌, some, arith, replicate}
use redis_proxy.Buffer.Chain.{empty_chain}
use redis_proxy.Channel.{
  Channel, State, submitted, took, replied, detached, new_channel, step, reply, submit, after_round,
  writer_round, frame_ok, is_healthy,
}
use redis_proxy.Channel.Slots.{pending_slots, write_slots}
use redis_proxy.Channel.Invariant.{IsValid, step-IsValid}
use redis_proxy.Channel.Fifo.{Serves, view, step-Serves}

-- A connection that has just been made.
abbrev fresh : Channel
fresh = record new_channel { state = State.ready; reader_done = false }

fresh-IsValid : IsValid fresh
unfolding new_channel pending_slots write_slots is_healthy
fresh-IsValid = record {
  counted = refl;
  pending_sized = tt;
  write_sized = tt;
  quiet = λ u. absurd (ground arith);
}

-- Client 7 has sent three commands.
asked : Channel
asked = (step fresh (submitted (some 7) empty_chain 3)).0

asked-IsValid : IsValid asked
unfolding asked
asked-IsValid = step-IsValid fresh (submitted (some 7) empty_chain 3) (omega arith) fresh-IsValid

sent : Channel
sent = (step asked took).0

sent-IsValid : IsValid sent
unfolding sent
sent-IsValid = step-IsValid asked took tt asked-IsValid

sent_slots : pending_slots sent.pending_queue ≡ replicate 3 (some 7)
unfolding sent asked step submit after_round writer_round new_channel pending_slots
sent_slots = refl

sent_reply : (step sent (replied empty_chain)).1 ≡ reply 7 empty_chain ∷ []
unfolding sent asked step submit after_round writer_round frame_ok new_channel
sent_reply = refl

step-IsValid_example : IsValid (step sent (detached 7)).0
step-IsValid_example = step-IsValid sent (detached 7) tt sent-IsValid

step-Serves_example :
    Serves
      (view sent)
      (view (step sent (replied empty_chain)).0)
      (replied empty_chain)
      (step sent (replied empty_chain)).1
step-Serves_example = step-Serves sent (replied empty_chain) sent-IsValid
