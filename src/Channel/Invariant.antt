-- ===== src/Channel/Invariant.antt =====
-- src/backend_channel.cpp: `queued_commands_` is the number of replies that the channel owes, and the
-- queues of a channel that is not ready are empty.
use redis_proxy.Base.{
  ℕ, ◌+◌, ◌<◌, ◌^◌, ◌%◌, ◌≡◌, refl, ap, inl, inr, Bool, true, false, not, ◌||◌, List, [], ◌∷◌, ◌++◌,
  Option, arith, length, All, ◌==◌, if◌then◌else◌, Bool-cases, subst, codes,
}
use redis_proxy.Status.{Status, is_ok, closed}
use redis_proxy.Buffer.Chain.{Chain}
use redis_proxy.Channel.{
  Channel, RequestBatch, PendingBatch, Notice, Event, submitted, detached, took, wrote, read,
  replied, garbled, stopping, new_channel, is_healthy, submit, erase_writes, orphan, detach_owner,
  fail_connection, dispatch_front, dispatch_reply, stop, take_batch, writer_round, write_done,
  read_done, frame_ok, frame_bad, after_round, step,
}
use redis_proxy.Channel.Slots.{
  pending_slots, write_slots, PendingSized, WriteSized, pending_slots-count_down, count_down-Sized,
  pending_slots-orphan, orphan-Sized, write_slots-erase, erase_writes-Sized, erase_writes-queued,
  length-mask_all, length-write_slots_back, length-pending_slots_back, length-write_slots_front,
}

-- The owners of all the replies that the channel owes, in the order in which they will come.
abbrev pub slots : Channel → List (Option ℕ)
slots c = pending_slots c.pending_queue ++ write_slots c.write_queue

pub record IsValid (c : Channel) : Type 0 where
  pub counted :
      c.queued_commands
      ≡ (length (pending_slots c.pending_queue) + length (write_slots c.write_queue)) % 2 ^ 64
  pub pending_sized : All PendingSized c.pending_queue
  pub write_sized : All WriteSized c.write_queue
  pub quiet : is_healthy c ≡ false → (c.pending_queue ≡ []) × (c.write_queue ≡ [])

pub new_channel-IsValid : IsValid new_channel
unfolding new_channel pending_slots write_slots
new_channel-IsValid = record {
  counted = refl;
  pending_sized = tt;
  write_sized = tt;
  quiet = λ _. (refl, refl);
}

All-append {ℓ κ} :
    {A : Type ℓ} (P : A → Type κ) (xs ys : List A) → All P xs → All P ys → All P (xs ++ ys)
All-append P [] ys h k = k
All-append P (x ∷ xs) ys h k = (h.0, All-append P xs ys h.1 k)

-- The batch of a command count that fits `uint32_t`.
abbrev pub Admissible : Event → Type 0
Admissible (submitted o bytes n) = n < 2 ^ 32
Admissible _ = Unit

submit-healthy :
    (o : Option ℕ) (bytes : Chain) (n : ℕ) (c : Channel)
    → IsValid c
    → n < 2 ^ 32
    → IsValid (submit o bytes n c).0
unfolding submit is_healthy
submit-healthy o bytes n c v h = elim (Bool-cases (not (is_healthy c) || n == 0)) [
  | inl refused ↦ rw refused v
  | inr taken ↦ rw taken (record {
    counted = omega (
      arith,
      v.counted,
      length-write_slots_back c.write_queue
          (record { owner = o; bytes = bytes; command_count = n }),
    );
    pending_sized = v.pending_sized;
    write_sized = All-append WriteSized c.write_queue _ v.write_sized ((ground arith, h), tt);
    quiet = λ u. absurd (ground arith);
  })
]

detach_owner-IsValid : (o : ℕ) (c : Channel) → IsValid c → IsValid (detach_owner o c)
unfolding detach_owner is_healthy orphan erase_writes
detach_owner-IsValid o c v = record {
  counted = omega (
    arith,
    erase_writes-queued o c.write_queue c.queued_commands (length (pending_slots c.pending_queue))
        v.write_sized v.counted,
    ap length (write_slots-erase o c.write_queue c.queued_commands),
    ap length (pending_slots-orphan o c.pending_queue),
    length-mask_all o (pending_slots c.pending_queue),
  );
  pending_sized = orphan-Sized o c.pending_queue v.pending_sized;
  write_sized = erase_writes-Sized o c.write_queue c.queued_commands v.write_sized;
  quiet = λ u.
      let (p, w) = v.quiet u in
      (ap (orphan o) p, ap (λ bs. (erase_writes o bs c.queued_commands).0) w);
}

fail_connection-IsValid : (s : Status) (c : Channel) → IsValid c → IsValid (fail_connection s c).0
unfolding fail_connection is_healthy pending_slots write_slots
fail_connection-IsValid s c v = elim (Bool-cases (is_healthy c)) [
  | inl up ↦
      rw up
        (record { counted = refl; pending_sized = tt; write_sized = tt; quiet = λ _. (refl, refl) })
  | inr down ↦ rw down v
]

dispatch_front-IsValid :
    (ps : List PendingBatch) (r : Chain) (c : Channel)
    → c.pending_queue ≡ ps
    → IsValid c
    → IsValid (dispatch_front ps r c).0
unfolding dispatch_front is_healthy
dispatch_front-IsValid [] r c e v = fail_connection-IsValid _ c v
dispatch_front-IsValid (p ∷ ps) r c e v = record {
  counted = omega (
    arith,
    v.counted,
    ap (λ xs. length (pending_slots xs)) e,
    ap length (pending_slots-count_down p ps sized.0),
  );
  pending_sized = count_down-Sized p ps sized;
  write_sized = v.write_sized;
  quiet = λ u. absurd (cc (e, (v.quiet u).0));
}
  where
    sized : All PendingSized (p ∷ ps)
    sized = subst (All PendingSized) e v.pending_sized

take_batch-IsValid :
    (bs : List RequestBatch) (c : Channel)
    → c.write_queue ≡ bs
    → is_healthy c ≡ true
    → IsValid c
    → IsValid (after_round c (take_batch bs c))
unfolding take_batch after_round is_healthy
take_batch-IsValid [] c e h v = v
take_batch-IsValid (b ∷ bs) c e h v = record {
  counted = omega (
    arith,
    v.counted,
    ap (λ xs. length (write_slots xs)) e,
    length-write_slots_front b bs,
    length-pending_slots_back c.pending_queue
        (record { owner = b.owner; remaining_replies = b.command_count }),
  );
  pending_sized = All-append PendingSized c.pending_queue _ v.pending_sized (sized.0, tt);
  write_sized = sized.1;
  quiet = λ u. absurd (cc (h, u));
}
  where
    sized : All WriteSized (b ∷ bs)
    sized = subst (All WriteSized) e v.write_sized

stop-IsValid : (c : Channel) → IsValid c → IsValid (stop c).0
unfolding stop is_healthy
stop-IsValid c v =
    let w =
      fail_connection-IsValid (closed (codes "backend stopped"))
        (record c { stop_requested = true })
        (record {
          counted = v.counted;
          pending_sized = v.pending_sized;
          write_sized = v.write_sized;
          quiet = v.quiet;
        }) in
    record {
      counted = w.counted;
      pending_sized = w.pending_sized;
      write_sized = w.write_sized;
      quiet = w.quiet;
    }

took-IsValid : (c : Channel) → IsValid c → IsValid (after_round c (writer_round c))
unfolding writer_round after_round
took-IsValid c v = elim (Bool-cases (is_healthy c)) [
  | inl up ↦ rw up (take_batch-IsValid c.write_queue c refl up v)
  | inr down ↦ rw down v
]

if-IsValid :
    (b : Bool) (x y : Channel × List Notice)
    → IsValid x.0
    → IsValid y.0
    → IsValid (if b then x else y).0
if-IsValid true x y h k = h
if-IsValid false x y h k = k

-- Every event with a 32-bit command count keeps `queued_commands_` at the number of replies owed,
-- modulo 2 ^ 64, the batch sizes positive and within 32 bits, and the queues of a channel that is not
-- ready empty.
pub step-IsValid : (c : Channel) (e : Event) → Admissible e → IsValid c → IsValid (step c e).0
unfolding step write_done read_done frame_ok frame_bad dispatch_reply
step-IsValid c (submitted o bytes n) a v = submit-healthy o bytes n c v a
step-IsValid c (detached o) a v = detach_owner-IsValid o c v
step-IsValid c took a v = took-IsValid c v
step-IsValid c (wrote s) a v = if-IsValid (is_ok s) _ _ v (fail_connection-IsValid s c v)
step-IsValid c (read s) a v =
    if-IsValid (not (is_healthy c)) _ _ v
      (if-IsValid (is_ok s) _ _ v (fail_connection-IsValid s c v))
step-IsValid c (replied r) a v =
    if-IsValid (is_healthy c) _ _ (dispatch_front-IsValid c.pending_queue r c refl v) v
step-IsValid c garbled a v = if-IsValid (is_healthy c) _ _ (fail_connection-IsValid _ c v) v
step-IsValid c stopping a v = stop-IsValid c v
