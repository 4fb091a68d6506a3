-- ===== src/Channel/Slots.antt =====
-- src/backend_channel.cpp: the order in which a connection owes replies, one slot for each command.
use redis_proxy.Base.{
  ℕ, zero, suc, ◌+◌, ◌-◌, ◌<◌, ◌^◌, ◌%◌, ◌≡◌, refl, sym, ap, ap₂, ◌∙◌, inl, inr, Bool, true, false,
  List, [], ◌∷◌, ◌++◌, Option, none, append_assoc, arith, length, replicate, All, length-append,
  length-replicate, ◌==◌, if◌then◌else◌, sub32, sub64, Bool-cases,
}
use redis_proxy.Channel.{RequestBatch, PendingBatch, owned_by, erase_writes, orphan, count_down}

-- The owners of the replies still due on batches that are being written or were written.
unfoldable pub pending_slots : List PendingBatch → List (Option ℕ)
pending_slots [] = []
pending_slots (p ∷ ps) = replicate p.remaining_replies p.owner ++ pending_slots ps

-- The owners of the commands not yet handed to the socket.
unfoldable pub write_slots : List RequestBatch → List (Option ℕ)
write_slots [] = []
write_slots (b ∷ bs) = replicate b.command_count b.owner ++ write_slots bs

pub pending_slots-append :
    (ps qs : List PendingBatch) → pending_slots (ps ++ qs) ≡ pending_slots ps ++ pending_slots qs
unfolding pending_slots
pending_slots-append [] qs = refl
pending_slots-append (p ∷ ps) qs =
    ap (◌++◌ (replicate p.remaining_replies p.owner)) (pending_slots-append ps qs)
    ∙ sym
        (append_assoc (replicate p.remaining_replies p.owner) (pending_slots ps) (pending_slots qs))

pub write_slots-append :
    (bs cs : List RequestBatch) → write_slots (bs ++ cs) ≡ write_slots bs ++ write_slots cs
unfolding write_slots
write_slots-append [] cs = refl
write_slots-append (b ∷ bs) cs =
    ap (◌++◌ (replicate b.command_count b.owner)) (write_slots-append bs cs)
    ∙ sym (append_assoc (replicate b.command_count b.owner) (write_slots bs) (write_slots cs))

-- The batch sizes are positive and fit `uint32_t`.
abbrev pub Sized : ℕ → Type 0
Sized n = (0 < n) × (n < 2 ^ 32)

abbrev pub PendingSized : PendingBatch → Type 0
PendingSized p = Sized p.remaining_replies

abbrev pub WriteSized : RequestBatch → Type 0
WriteSized b = Sized b.command_count

replicate_pos :
    {n : ℕ} (m : ℕ) (o : Option ℕ) → 0 < n → m ≡ n - 1 → replicate n o ≡ o ∷ replicate m o
replicate_pos {n = zero} m o h e = absurd (omega arith)
replicate_pos {n = suc n} m o h e = ap (λ k. o ∷ replicate k o) (omega arith)

-- Counting the front batch down takes off the first slot, which is its owner's.
pub pending_slots-count_down :
    (p : PendingBatch) (ps : List PendingBatch)
    → PendingSized p
    → pending_slots (p ∷ ps) ≡ p.owner ∷ pending_slots (count_down p ps)
unfolding pending_slots count_down
pending_slots-count_down p ps h = elim (Bool-cases (sub32 p.remaining_replies 1 == 0)) [
  | inl last ↦
      rw (last, count_down)
        (ap (λ os. os ++ pending_slots ps) (replicate_pos 0 p.owner h.0 (ground arith)))
  | inr more ↦
      rw (more, count_down)
        (ap (λ os. os ++ pending_slots ps)
          (replicate_pos (sub32 p.remaining_replies 1) p.owner h.0 (omega (arith, h))))
]

pub count_down-Sized :
    (p : PendingBatch) (ps : List PendingBatch)
    → All PendingSized (p ∷ ps)
    → All PendingSized (count_down p ps)
unfolding count_down
count_down-Sized p ps h = elim (Bool-cases (sub32 p.remaining_replies 1 == 0)) [
  | inl last ↦ rw last h.1
  | inr more ↦ rw more ((ground arith, omega arith), h.1)
]

-- Detaching an owner: his started slots stay, without him; his other slots go.
abbrev pub mask : ℕ → Option ℕ → Option ℕ
mask o s = if owned_by o s then none else s

unfoldable pub mask_all : ℕ → List (Option ℕ) → List (Option ℕ)
mask_all o [] = []
mask_all o (s ∷ ss) = mask o s ∷ mask_all o ss

unfoldable pub without : ℕ → List (Option ℕ) → List (Option ℕ)
without o [] = []
without o (s ∷ ss) = if owned_by o s then without o ss else s ∷ without o ss

pub length-mask_all : (o : ℕ) (xs : List (Option ℕ)) → length (mask_all o xs) ≡ length xs
unfolding mask_all
length-mask_all o [] = refl
length-mask_all o (x ∷ xs) = ap suc (length-mask_all o xs)

mask_all-append :
    (o : ℕ) (xs ys : List (Option ℕ)) → mask_all o (xs ++ ys) ≡ mask_all o xs ++ mask_all o ys
unfolding mask_all
mask_all-append o [] ys = refl
mask_all-append o (x ∷ xs) ys = ap (◌∷◌ (mask o x)) (mask_all-append o xs ys)

mask_all-replicate : (o n : ℕ) (s : Option ℕ) → mask_all o (replicate n s) ≡ replicate n (mask o s)
unfolding mask_all
mask_all-replicate o zero s = refl
mask_all-replicate o (suc n) s = ap (◌∷◌ (mask o s)) (mask_all-replicate o n s)

without-append :
    (o : ℕ) (xs ys : List (Option ℕ)) → without o (xs ++ ys) ≡ without o xs ++ without o ys
unfolding without
without-append o [] ys = refl
without-append o (x ∷ xs) ys = ground (arith, without-append o xs ys)

without-replicate :
    (o n : ℕ) (s : Option ℕ)
    → without o (replicate n s) ≡ (if owned_by o s then [] else replicate n s)
unfolding without
without-replicate o zero s = ground arith
without-replicate o (suc n) s = ground (arith, without-replicate o n s)

pub pending_slots-orphan :
    (o : ℕ) (ps : List PendingBatch) → pending_slots (orphan o ps) ≡ mask_all o (pending_slots ps)
unfolding pending_slots orphan mask_all
pending_slots-orphan o [] = refl
pending_slots-orphan o (p ∷ ps) =
    ap₂ ◌++◌ (front (owned_by o p.owner) refl) (pending_slots-orphan o ps)
    ∙ sym (mask_all-append o (replicate p.remaining_replies p.owner) (pending_slots ps))
  where
    front :
        (t : Bool)
        → owned_by o p.owner ≡ t
        → replicate
            (if t then record p { owner = none } else p).remaining_replies
            (if t then record p { owner = none } else p).owner
          ≡ mask_all o (replicate p.remaining_replies p.owner)
    front true e = rw (mask_all-replicate o p.remaining_replies p.owner) (rw e)
    front false e = rw (mask_all-replicate o p.remaining_replies p.owner) (rw e)

pub orphan-Sized :
    (o : ℕ) (ps : List PendingBatch) → All PendingSized ps → All PendingSized (orphan o ps)
unfolding orphan
orphan-Sized o [] h = tt
orphan-Sized o (p ∷ ps) h = (ground arith, orphan-Sized o ps h.1)

-- What `erase_writes` does at a batch of the owner, and at another.
erase_mine :
    (o : ℕ) (b : RequestBatch) (bs : List RequestBatch) (q : ℕ)
    → owned_by o b.owner ≡ true
    → erase_writes o (b ∷ bs) q ≡ erase_writes o bs (sub64 q b.command_count)
unfolding erase_writes
erase_mine o b bs q e = rw e

erase_other :
    (o : ℕ) (b : RequestBatch) (bs : List RequestBatch) (q : ℕ)
    → owned_by o b.owner ≡ false
    → erase_writes o (b ∷ bs) q ≡ (b ∷ (erase_writes o bs q).0, (erase_writes o bs q).1)
unfolding erase_writes
erase_other o b bs q e = rw e

without_mine :
    (o : ℕ) (b : RequestBatch) (bs : List RequestBatch)
    → owned_by o b.owner ≡ true
    → without o (write_slots (b ∷ bs)) ≡ without o (write_slots bs)
unfolding write_slots
without_mine o b bs e =
    without-append o (replicate b.command_count b.owner) (write_slots bs)
    ∙ rw (without-replicate o b.command_count b.owner, e)

without_other :
    (o : ℕ) (b : RequestBatch) (bs : List RequestBatch)
    → owned_by o b.owner ≡ false
    → without o (write_slots (b ∷ bs))
      ≡ replicate b.command_count b.owner ++ without o (write_slots bs)
unfolding write_slots
without_other o b bs e =
    without-append o (replicate b.command_count b.owner) (write_slots bs)
    ∙ rw (without-replicate o b.command_count b.owner, e)

pub write_slots-erase :
    (o : ℕ) (bs : List RequestBatch) (q : ℕ)
    → write_slots (erase_writes o bs q).0 ≡ without o (write_slots bs)
unfolding write_slots erase_writes without
write_slots-erase o [] q = refl
write_slots-erase o (b ∷ bs) q = elim (Bool-cases (owned_by o b.owner)) [
  | inl mine ↦
      ap (λ r. write_slots r.0) (erase_mine o b bs q mine)
      ∙ (write_slots-erase o bs (sub64 q b.command_count) ∙ sym (without_mine o b bs mine))
  | inr other ↦
      ap (λ r. write_slots r.0) (erase_other o b bs q other)
      ∙ (ap (◌++◌ (replicate b.command_count b.owner)) (write_slots-erase o bs q)
          ∙ sym (without_other o b bs other))
]

pub erase_writes-Sized :
    (o : ℕ) (bs : List RequestBatch) (q : ℕ)
    → All WriteSized bs
    → All WriteSized (erase_writes o bs q).0
unfolding erase_writes
erase_writes-Sized o [] q h = tt
erase_writes-Sized o (b ∷ bs) q h = elim (Bool-cases (owned_by o b.owner)) [
  | inl mine ↦ rw (erase_mine o b bs q mine) (erase_writes-Sized o bs (sub64 q b.command_count) h.1)
  | inr other ↦ rw (erase_other o b bs q other) (h.0, erase_writes-Sized o bs q h.1)
]

-- The slots erased are the ones that `queued_commands_` is counted down by, `n` slots apart.
pub erase_writes-queued :
    (o : ℕ) (bs : List RequestBatch) (q n : ℕ)
    → All WriteSized bs
    → q ≡ (n + length (write_slots bs)) % 2 ^ 64
    → (erase_writes o bs q).1 ≡ (n + length (without o (write_slots bs))) % 2 ^ 64
unfolding erase_writes write_slots without
erase_writes-queued o [] q n h e = e
erase_writes-queued o (b ∷ bs) q n h e = elim (Bool-cases (owned_by o b.owner)) [
  | inl mine ↦
      ap (λ r. r.1) (erase_mine o b bs q mine)
      ∙ (erase_writes-queued o bs (sub64 q b.command_count) n h.1 (omega (arith, width, e, h))
          ∙ sym (ap (λ ss. (n + length ss) % 2 ^ 64) (without_mine o b bs mine)))
  | inr other ↦
      ap (λ r. r.1) (erase_other o b bs q other)
      ∙ (erase_writes-queued o bs q (n + b.command_count) h.1 (omega (arith, width, e))
          ∙ sym (
              ap (λ ss. (n + length ss) % 2 ^ 64) (without_other o b bs other)
              ∙ ap (λ k. k % 2 ^ 64) (omega (arith, kept_width))))
]
  where
    width :
        length (replicate b.command_count b.owner ++ write_slots bs)
        ≡ b.command_count + length (write_slots bs)
    width = omega (
      arith,
      length-append (replicate b.command_count b.owner) (write_slots bs),
      length-replicate b.command_count b.owner,
    )

    kept_width :
        length (replicate b.command_count b.owner ++ without o (write_slots bs))
        ≡ b.command_count + length (without o (write_slots bs))
    kept_width = omega (
      arith,
      length-append (replicate b.command_count b.owner) (without o (write_slots bs)),
      length-replicate b.command_count b.owner,
    )

-- A batch at the back of a queue adds its commands.
pub length-write_slots_back :
    (bs : List RequestBatch) (b : RequestBatch)
    → length (write_slots (bs ++ b ∷ [])) ≡ length (write_slots bs) + b.command_count
unfolding write_slots
length-write_slots_back bs b = omega (
  arith,
  ap length (write_slots-append bs (b ∷ [])),
  length-append (write_slots bs) (replicate b.command_count b.owner ++ []),
  length-append (replicate b.command_count b.owner) [],
  length-replicate b.command_count b.owner,
)

pub length-pending_slots_back :
    (ps : List PendingBatch) (p : PendingBatch)
    → length (pending_slots (ps ++ p ∷ [])) ≡ length (pending_slots ps) + p.remaining_replies
unfolding pending_slots
length-pending_slots_back ps p = omega (
  arith,
  ap length (pending_slots-append ps (p ∷ [])),
  length-append (pending_slots ps) (replicate p.remaining_replies p.owner ++ []),
  length-append (replicate p.remaining_replies p.owner) [],
  length-replicate p.remaining_replies p.owner,
)

-- The front batch of the write queue.
pub length-write_slots_front :
    (b : RequestBatch) (bs : List RequestBatch)
    → length (write_slots (b ∷ bs)) ≡ b.command_count + length (write_slots bs)
unfolding write_slots
length-write_slots_front b bs = omega (
  arith,
  length-append (replicate b.command_count b.owner) (write_slots bs),
  length-replicate b.command_count b.owner,
)
