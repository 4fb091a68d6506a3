-- ===== src/Channel/Owners.antt =====
-- src/backend_channel.cpp, `failConnection`: whom the loss of a connection is told to.
use redis_proxy.Base.{
  ℕ, zero, suc, ◌+◌, ◌<◌, ◌≡◌, refl, sym, ap, ◌∙◌, Bool, true, false, ◌||◌, List, [], ◌∷◌, ◌++◌,
  Option, none, some, arith, replicate, All, ◌==◌, if◌then◌else◌,
}
use redis_proxy.Channel.{
  RequestBatch, PendingBatch, owned_by, insert_owner, write_owners, pending_owners,
}
use redis_proxy.Channel.Slots.{pending_slots, write_slots, PendingSized, WriteSized}

-- How often an owner stands in a list of owners.
unfoldable pub times : ℕ → List ℕ → ℕ
times o [] = 0
times o (p ∷ os) = (if p == o then 1 else 0) + times o os

-- Whether some slot is owed to `o`.
unfoldable pub owes : ℕ → List (Option ℕ) → Bool
owes o [] = false
owes o (s ∷ ss) = owned_by o s || owes o ss

pub owes-append : (o : ℕ) (xs ys : List (Option ℕ)) → owes o (xs ++ ys) ≡ (owes o xs || owes o ys)
unfolding owes
owes-append o [] ys = refl
owes-append o (x ∷ xs) ys = ground (arith, owes-append o xs ys)

owes-replicate : (o n : ℕ) (s : Option ℕ) → 0 < n → owes o (replicate n s) ≡ owned_by o s
unfolding owes
owes-replicate o zero s h = absurd (omega arith)
owes-replicate o (suc zero) s h = ground arith
owes-replicate o (suc (suc n)) s h = ground (arith, owes-replicate o (suc n) s)

-- Once in the set, if it was not there.
abbrev add_to : Bool → ℕ → ℕ
add_to true zero = 1
add_to true (suc n) = suc n
add_to false n = n

add_to-add_to : (a b : Bool) (n : ℕ) → add_to b (add_to a n) ≡ add_to (a || b) n
add_to-add_to true true zero = refl
add_to-add_to true true (suc n) = refl
add_to-add_to true false zero = refl
add_to-add_to true false (suc n) = refl
add_to-add_to false b n = refl

times-insert_owner :
    (o : ℕ) (s : Option ℕ) (os : List ℕ)
    → times o (insert_owner s os) ≡ add_to (owned_by o s) (times o os)
unfolding times insert_owner
times-insert_owner o none os = refl
times-insert_owner o (some p) [] = ground arith
times-insert_owner o (some p) (q ∷ os) = ground (arith, times-insert_owner o (some p) os)

times-write_owners :
    (o : ℕ) (bs : List RequestBatch) (os : List ℕ)
    → All WriteSized bs
    → times o (write_owners bs os) ≡ add_to (owes o (write_slots bs)) (times o os)
unfolding write_owners write_slots owes
times-write_owners o [] os h = refl
times-write_owners o (b ∷ bs) os h =
    times-write_owners o bs (insert_owner b.owner os) h.1
    ∙ (ap (add_to (owes o (write_slots bs))) (times-insert_owner o b.owner os)
        ∙ (add_to-add_to (owned_by o b.owner) (owes o (write_slots bs)) (times o os)
            ∙ sym (ap (λ t. add_to t (times o os)) here)))
  where
    here :
        owes o (replicate b.command_count b.owner ++ write_slots bs)
        ≡ (owned_by o b.owner || owes o (write_slots bs))
    here =
        owes-append o (replicate b.command_count b.owner) (write_slots bs)
        ∙ ap (λ t. t || owes o (write_slots bs)) (owes-replicate o b.command_count b.owner h.0.0)

times-pending_owners :
    (o : ℕ) (ps : List PendingBatch) (os : List ℕ)
    → All PendingSized ps
    → times o (pending_owners ps os) ≡ add_to (owes o (pending_slots ps)) (times o os)
unfolding pending_owners pending_slots owes
times-pending_owners o [] os h = refl
times-pending_owners o (p ∷ ps) os h =
    times-pending_owners o ps (insert_owner p.owner os) h.1
    ∙ (ap (add_to (owes o (pending_slots ps))) (times-insert_owner o p.owner os)
        ∙ (add_to-add_to (owned_by o p.owner) (owes o (pending_slots ps)) (times o os)
            ∙ sym (ap (λ t. add_to t (times o os)) here)))
  where
    here :
        owes o (replicate p.remaining_replies p.owner ++ pending_slots ps)
        ≡ (owned_by o p.owner || owes o (pending_slots ps))
    here =
        owes-append o (replicate p.remaining_replies p.owner) (pending_slots ps)
        ∙ ap (λ t. t || owes o (pending_slots ps))
            (owes-replicate o p.remaining_replies p.owner h.0.0)

-- Every owner of a slot is in the set once, and nobody else is.
pub times-owners :
    (o : ℕ) (ps : List PendingBatch) (bs : List RequestBatch)
    → All PendingSized ps
    → All WriteSized bs
    → times o (pending_owners ps (write_owners bs []))
      ≡ (if owes o (pending_slots ps ++ write_slots bs) then 1 else 0)
unfolding times
times-owners o ps bs h k =
    times-pending_owners o ps (write_owners bs []) h
    ∙ (ap (add_to (owes o (pending_slots ps))) (times-write_owners o bs [] k)
        ∙ rw (owes-append o (pending_slots ps) (write_slots bs)) (ground arith))
