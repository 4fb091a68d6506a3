-- ===== src/Channel/Fifo.antt =====
-- src/backend_channel.cpp: a connection is a queue of reply slots. Redis answers the commands of a
-- connection in order, so the next reply belongs to the owner of the oldest slot.
use redis_proxy.Base.{
  ℕ, ◌<◌, ◌≡◌, ◌⊎◌, refl, sym, ap, ap₂, ◌∙◌, inl, inr, Bool, true, false, not, ◌||◌, List, [], ◌∷◌,
  ◌++◌, Option, arith, All, replicate, append-nil, ◌==◌, if◌then◌else◌, subst, codes,
}
use redis_proxy.Status.{Status, is_ok, protocol_error, closed}
use redis_proxy.Buffer.Chain.{Chain}
use redis_proxy.Channel.{
  Channel, RequestBatch, PendingBatch, Notice, Event, submitted, detached, took, wrote, read,
  replied, garbled, stopping, is_healthy, submit, detach_owner, fail_connection, failures,
  write_owners, pending_owners, count_down, deliver, dispatch_front, dispatch_reply, stop,
  take_batch, writer_round, write_done, read_done, frame_ok, frame_bad, after_round, step,
}
use redis_proxy.Channel.Slots.{
  pending_slots, write_slots, PendingSized, WriteSized, pending_slots-append, write_slots-append,
  pending_slots-count_down, pending_slots-orphan, write_slots-erase, mask_all, without,
}
use redis_proxy.Channel.Owners.{times, owes, times-owners}
use redis_proxy.Channel.Invariant.{IsValid}

-- The abstract connection: whether it is up, who is owed replies on commands handed to the socket, and
-- who on commands that wait for it.
pub record View : Type 0 where
  pub up : Bool
  pub started : List (Option ℕ)
  pub waiting : List (Option ℕ)

abbrev pub view : Channel → View
view c = record {
  up = is_healthy c;
  started = pending_slots c.pending_queue;
  waiting = write_slots c.write_queue;
}

-- When an event changes nothing.
abbrev pub Ignored : View → Event → Type 0
Ignored v (submitted o bytes n) = (v.up ≡ false) ⊎ (n ≡ 0)
Ignored v (detached o) = ⊥
Ignored v took = (v.up ≡ false) ⊎ (v.waiting ≡ [])
Ignored v (wrote s) = (is_ok s ≡ true) ⊎ (v.up ≡ false)
Ignored v (read s) = (is_ok s ≡ true) ⊎ (v.up ≡ false)
Ignored v _ = v.up ≡ false

-- When it fails the connection, and with which status.
abbrev pub Breaking : View → Event → Status → Type 0
Breaking v (wrote s) status = (is_ok s ≡ false) × (status ≡ s)
Breaking v (read s) status = (is_ok s ≡ false) × (status ≡ s)
Breaking v (replied r) status =
    (v.started ≡ []) × (status ≡ protocol_error (codes "unexpected redis reply"))
Breaking v garbled status = status ≡ protocol_error (codes "bad redis reply")
Breaking v stopping status = status ≡ closed (codes "backend stopped")
Breaking v _ status = ⊥

-- What an event does to the abstract connection, and the notices that it gives.
pub data Serves (v w : View) : Event → List Notice → Type 0 where
  ignores : (e : Event) → Ignored v e → w ≡ v → Serves v w e []
  -- The commands of a batch go to the back.
  asks :
      (o : Option ℕ) (bytes : Chain) (n : ℕ)
      → v.up ≡ true
      → 0 < n
      → w ≡ record v { waiting = v.waiting ++ replicate n o }
      → Serves v w (submitted o bytes n) []
  -- The oldest batch is handed to the socket: its slots move over, in order.
  starts :
      (o : Option ℕ) (n : ℕ) (rest : List (Option ℕ))
      → v.up ≡ true
      → 0 < n
      → v.waiting ≡ replicate n o ++ rest
      → w ≡ record v { started = v.started ++ replicate n o; waiting = rest }
      → Serves v w took []
  -- A reply goes to the owner of the oldest slot, if he is still there.
  answers :
      (o : Option ℕ) (rest : List (Option ℕ)) (r : Chain)
      → v.up ≡ true
      → v.started ≡ o ∷ rest
      → w ≡ record v { started = rest }
      → Serves v w (replied r) (deliver o r)
  -- An owner leaves: his started slots stay without him, the others are dropped.
  leaves :
      (o : ℕ)
      → w ≡ record v { started = mask_all o v.started; waiting = without o v.waiting }
      → Serves v w (detached o) []
  -- The connection goes down and forgets every slot; each owner of one is told once.
  breaks :
      (e : Event) (status : Status) (os : List ℕ)
      → v.up ≡ true
      → Breaking v e status
      → w ≡ record { up = false; started = []; waiting = [] }
      → ((o : ℕ) → times o os ≡ (if owes o (v.started ++ v.waiting) then 1 else 0))
      → Serves v w e (failures status os)

-- An event that leads to the channel and notices of `r`.
abbrev Does : View → Event → Channel × List Notice → Type 0
Does v e r = Serves v (view r.0) e r.1

if-Does :
    (b : Bool) (v : View) (e : Event) (x y : Channel × List Notice)
    → (b ≡ true → Does v e x)
    → (b ≡ false → Does v e y)
    → Does v e (if b then x else y)
if-Does true v e x y h k = h refl
if-Does false v e x y h k = k refl

fail_connection-Does :
    (v : View) (e : Event) (s : Status) (c : Channel)
    → v ≡ view c
    → IsValid c
    → (is_healthy c ≡ true → Breaking v e s)
    → (is_healthy c ≡ false → Ignored v e)
    → Does v e (fail_connection s c)
unfolding fail_connection pending_slots write_slots
fail_connection-Does v e s c same ok breaking ignored =
    if-Does (is_healthy c) v e _ _
      (λ up.
        breaks e s (pending_owners c.pending_queue (write_owners c.write_queue []))
          (ap (λ w. w.up) same ∙ up) (breaking up) refl
          (λ o.
            times-owners o c.pending_queue c.write_queue ok.pending_sized ok.write_sized
            ∙ ap (λ w. if owes o (w.started ++ w.waiting) then 1 else 0) (sym same)))
      (λ down. ignores e (ignored down) (sym same))

submit-Serves :
    (o : Option ℕ) (bytes : Chain) (n : ℕ) (c : Channel)
    → Serves (view c) (view (submit o bytes n c).0) (submitted o bytes n) []
unfolding submit write_slots is_healthy
submit-Serves o bytes n c =
    split_test (not (is_healthy c) || n == 0) _ _ (λ refused. ignores _ (ground arith) refl)
      (λ taken. asks o bytes n (ground arith) (ground arith) (
        ap
          (λ ws. record {
            up = is_healthy c;
            started = pending_slots c.pending_queue;
            waiting = ws;
          })
          (write_slots-append c.write_queue _
            ∙ ap (◌++◌ (write_slots c.write_queue)) (append-nil (replicate n o)))))
  where
    split_test :
        (b : Bool) (x y : Channel × Bool)
        → (b ≡ true → Serves (view c) (view x.0) (submitted o bytes n) [])
        → (b ≡ false → Serves (view c) (view y.0) (submitted o bytes n) [])
        → Serves (view c) (view (if b then x else y).0) (submitted o bytes n) []
    split_test true x y h k = h refl
    split_test false x y h k = k refl

-- A batch that a healthy channel takes.
pub view-submit :
    (o : Option ℕ) (bytes : Chain) (n : ℕ) (c : Channel)
    → is_healthy c ≡ true
    → 0 < n
    → view (submit o bytes n c).0 ≡ record (view c) { waiting = (view c).waiting ++ replicate n o }
unfolding submit write_slots is_healthy
view-submit o bytes n c up pos = rw test (
    ap (λ ws. record { up = is_healthy c; started = pending_slots c.pending_queue; waiting = ws })
      (write_slots-append c.write_queue _
        ∙ ap (◌++◌ (write_slots c.write_queue)) (append-nil (replicate n o))))
  where
    test : (not (is_healthy c) || n == 0) ≡ false
    test = ground arith

dispatch_front-Does :
    (ps : List PendingBatch) (r : Chain) (c : Channel)
    → c.pending_queue ≡ ps
    → is_healthy c ≡ true
    → IsValid c
    → Does (view c) (replied r) (dispatch_front ps r c)
unfolding dispatch_front pending_slots is_healthy
dispatch_front-Does [] r c e up v =
    fail_connection-Does (view c) (replied r) _ c refl v (λ _. (ap pending_slots e, refl))
      (λ down. down)
dispatch_front-Does (p ∷ ps) r c e up v =
    answers p.owner (pending_slots (count_down p ps)) r up
      (ap pending_slots e
        ∙ pending_slots-count_down p ps (subst (All PendingSized) e v.pending_sized).0)
      refl

take_batch-Serves :
    (bs : List RequestBatch) (c : Channel)
    → c.write_queue ≡ bs
    → is_healthy c ≡ true
    → IsValid c
    → Serves (view c) (view (after_round c (take_batch bs c))) took []
unfolding take_batch after_round pending_slots write_slots is_healthy
take_batch-Serves [] c e up v = ignores took (inr (ap write_slots e)) refl
take_batch-Serves (b ∷ bs) c e up v =
    starts b.owner b.command_count (write_slots bs) up (subst (All WriteSized) e v.write_sized).0.0
      (ap write_slots e)
      (ap (λ ss. record { up = is_healthy c; started = ss; waiting = write_slots bs })
        (pending_slots-append c.pending_queue _
          ∙ ap (◌++◌ (pending_slots c.pending_queue))
              (append-nil (replicate b.command_count b.owner))))

took-Serves :
    (c : Channel) → IsValid c → Serves (view c) (view (after_round c (writer_round c))) took []
unfolding writer_round after_round
took-Serves c v =
    split_test (is_healthy c) _ _ (λ up. take_batch-Serves c.write_queue c refl up v)
      (λ down. ignores took (inl down) refl)
  where
    split_test :
        (b : Bool) (x y : Option (Chain × Channel))
        → (b ≡ true → Serves (view c) (view (after_round c x)) took [])
        → (b ≡ false → Serves (view c) (view (after_round c y)) took [])
        → Serves (view c) (view (after_round c (if b then x else y))) took []
    split_test true x y h k = h refl
    split_test false x y h k = k refl

pub view-detach_owner :
    (o : ℕ) (c : Channel)
    → view (detach_owner o c) ≡ record (view c) {
      started = mask_all o (view c).started;
      waiting = without o (view c).waiting;
    }
unfolding detach_owner is_healthy
view-detach_owner o c =
    ap₂ (λ ss ws. record { up = is_healthy c; started = ss; waiting = ws })
      (pending_slots-orphan o c.pending_queue) (write_slots-erase o c.write_queue c.queued_commands)

stop-Does : (c : Channel) → IsValid c → Does (view c) stopping (stop c)
unfolding stop is_healthy
stop-Does c v =
    fail_connection-Does (view c) stopping (closed (codes "backend stopped"))
      (record c { stop_requested = true }) refl
      (record {
        counted = v.counted;
        pending_sized = v.pending_sized;
        write_sized = v.write_sized;
        quiet = v.quiet;
      })
      (λ _. refl) (λ down. down)

-- Failing, or not, on a status.
status-Does :
    (e : Event) (s : Status) (c : Channel)
    → IsValid c
    → (is_ok s ≡ true → Ignored (view c) e)
    → (is_healthy c ≡ false → Ignored (view c) e)
    → (is_ok s ≡ false → Breaking (view c) e s)
    → Does (view c) e (if is_ok s then (c, []) else fail_connection s c)
status-Does e s c v fine down bad =
    if-Does (is_ok s) (view c) e _ _ (λ ok. ignores e (fine ok) refl)
      (λ ko. fail_connection-Does (view c) e s c refl v (λ _. bad ko) down)

-- A valid channel does with every event what a queue of reply slots does: an accepted batch goes to the
-- back, a batch handed to the socket moves over in order, a reply goes to the owner of the oldest slot,
-- an owner who leaves keeps his started slots without him, and a failure empties the queue and is told
-- once to every owner of a slot; the notices are the same, and an event that is ignored changes nothing.
pub step-Serves :
    (c : Channel) (e : Event) → IsValid c → Serves (view c) (view (step c e).0) e (step c e).1
unfolding step write_done read_done frame_ok frame_bad dispatch_reply
step-Serves c (submitted o bytes n) v = submit-Serves o bytes n c
step-Serves c (detached o) v = leaves o (view-detach_owner o c)
step-Serves c took v = took-Serves c v
step-Serves c (wrote s) v = status-Does (wrote s) s c v inl inr (λ ko. (ko, refl))
step-Serves c (read s) v =
    if-Does (not (is_healthy c)) (view c) (read s) _ _ (λ down. ignores _ (inr (ground arith)) refl)
      (λ _. status-Does (read s) s c v inl inr (λ ko. (ko, refl)))
step-Serves c (replied r) v =
    if-Does (is_healthy c) (view c) (replied r) _ _
      (λ up. dispatch_front-Does c.pending_queue r c refl up v) (λ down. ignores _ down refl)
step-Serves c garbled v =
    if-Does (is_healthy c) (view c) garbled _ _
      (λ up. fail_connection-Does (view c) garbled _ c refl v (λ _. refl) (λ down. down))
      (λ down. ignores _ down refl)
step-Serves c stopping v = stop-Does c v
