-- ===== src/Session/Submitting.antt =====
-- src/client_session.cpp, `submitBatch`: the batch is with the pool, or the session has aborted.
use redis_proxy.Base.{
  ℕ, zero, suc, ◌+◌, ◌<◌, ◌^◌, ◌≡◌, refl, sym, ap, subst, ◌∙◌, ◌⊎◌, Bool, true, false, Option, none,
  some, arith, ◌==◌, set, ==_refl, add64,
}
use redis_proxy.Buffer.Chain.{Chain}
use redis_proxy.Channel.{Channel, submitted, step, submit as submit_channel}
use redis_proxy.Channel.Invariant.{step-IsValid}
use redis_proxy.Pool.{Channels, select}
use redis_proxy.Pool.Selection.{Up}
use redis_proxy.Pool.Submission.{Submits, submit-Submits}
use redis_proxy.Session.{Session, State, World, update, abort, settle, submit_batch}
use redis_proxy.Session.Debt.{debt-submit}
use redis_proxy.Session.Claims.{Fair}
use redis_proxy.Session.Fair.{Fair-set, set-ChannelsValid, submitted-Fair}
use redis_proxy.Session.Delivery.{Agrees, WorldIsValid, abort-IsValid}

-- The session after its batch was taken by the channel at `i`.
abbrev pub settled_session : ℕ → ℕ → Session → Session
settled_session i n s = record s {
  current_backend = some i;
  pending_replies = add64 s.pending_replies n;
}

-- The worker after the channel `c` at `i` took a batch.
abbrev pub settled : ℕ → ℕ → Chain → ℕ → Channel → World → World
settled o i bytes n c w = record {
  channels = set w.channels i (submit_channel (some o) bytes n c).0;
  sessions = update o (settled_session i n (w.sessions o)) w.sessions;
}

-- How `submitBatch` ends.
pub data Ends (o : ℕ) (bytes : Chain) (n : ℕ) (w : World) : World × Bool → Type 0 where
  empty : {r : World × Bool} → n ≡ 0 → r ≡ (w, true) → Ends o bytes n w r
  refused :
      {r : World × Bool}
      → 0 < n
      → select (w.sessions o).current_backend w.channels ≡ none
      → r ≡ (abort o w, false)
      → Ends o bytes n w r
  taken :
      {r : World × Bool} (i : ℕ) (c : Channel)
      → 0 < n
      → Up w.channels i c
      → ((w.sessions o).current_backend ≡ none) ⊎ ((w.sessions o).current_backend ≡ some i)
      → r ≡ (settled o i bytes n c w, true)
      → Ends o bytes n w r

settle-Ends :
    (o : ℕ) (bytes : Chain) (n : ℕ) (w : World) (r : Channels × Option ℕ)
    → 0 < n
    → Submits (some o) (w.sessions o).current_backend bytes n w.channels r
    → Ends o bytes n w (settle o n r.1 (record w { channels = r.0 }))
unfolding settle
settle-Ends o bytes n w r pos (Submits.refused e er) =
    refused pos e (ap (λ q. settle o n q.1 (record w { channels = q.0 })) er)
settle-Ends o bytes n w r pos (Submits.taken i c e u own er) =
    taken i c pos u own (ap (λ q. settle o n q.1 (record w { channels = q.0 })) er)

-- `submitBatch` does nothing for an empty batch, aborts the session if the pool has no connection for it,
-- and otherwise puts the batch on a connection that is up: the current one if there is one. That one is
-- then the current connection, and the session waits for as many more replies as there are commands.
pub submit_batch-Ends :
    (o : ℕ) (bytes : Chain) (n : ℕ) (w : World) → Ends o bytes n w (submit_batch o bytes n w)
unfolding submit_batch
submit_batch-Ends o bytes zero w = empty refl refl
submit_batch-Ends o bytes (suc n) w = rw (nonzero n) (
    settle-Ends o bytes (suc n) w _ (omega arith) (
      submit-Submits (some o) (w.sessions o).current_backend bytes (suc n) w.channels
        (omega arith)))
  where
    nonzero : (n : ℕ) → (suc n == 0) ≡ false
    nonzero n = ground arith

Ends-IsValid :
    (o : ℕ) (bytes : Chain) (n : ℕ) (w : World) (r : World × Bool)
    → n < 2 ^ 32
    → (w.sessions o).pending_replies + n < 2 ^ 64
    → (w.sessions o).state ≡ State.opened
    → WorldIsValid w
    → Ends o bytes n w r
    → WorldIsValid r.0
unfolding step
Ends-IsValid o bytes n w r small fit live v (Ends.empty e er) =
    subst (λ q. WorldIsValid q.0) (sym er) v
Ends-IsValid o bytes n w r small fit live v (Ends.refused pos e er) =
    subst (λ q. WorldIsValid q.0) (sym er) (abort-IsValid o w v)
Ends-IsValid o bytes n w r small fit live v (Ends.taken i c pos u own er) =
    subst (λ q. WorldIsValid q.0) (sym er)
      (record {
        channels_valid =
            set-ChannelsValid i _ w.channels
              (step-IsValid c (submitted (some o) bytes n) small (v.channels_valid i c u.0))
              v.channels_valid;
        agrees = λ p. agrees_with (o == p) p refl;
      })
  where
    agrees_with : (b : Bool) (p : ℕ) → (o == p) ≡ b → Agrees p (settled o i bytes n c w)
    agrees_with true p e =
        let op : o ≡ p = ground (arith, e) in
        rw e (
          subst
            (λ q.
              Fair (set w.channels i (submit_channel (some o) bytes n c).0) q
                (settled_session i n (w.sessions o)))
            op
            (submitted-Fair o i n c _ w.channels (w.sessions o) u.0 own
              (debt-submit o o bytes n c u.1 pos ∙ rw (==_refl o) refl) pos fit
              (λ st. cc (live, st)) (v.agrees o)))
    agrees_with false p e = rw e (
        Fair-set p i c _ w.channels (w.sessions p) u.0
          (debt-submit p o bytes n c u.1 pos ∙ rw e (omega arith)) (v.agrees p))

-- If the session is open and fewer than 2 ^ 64 replies are outstanding with this batch, `submitBatch`
-- of a 32-bit command count keeps sessions and channels in agreement, on every branch.
pub submit_batch-IsValid :
    (o : ℕ) (bytes : Chain) (n : ℕ) (w : World)
    → n < 2 ^ 32
    → (w.sessions o).pending_replies + n < 2 ^ 64
    → (w.sessions o).state ≡ State.opened
    → WorldIsValid w
    → WorldIsValid (submit_batch o bytes n w).0
submit_batch-IsValid o bytes n w small fit live v =
    Ends-IsValid o bytes n w _ small fit live v (submit_batch-Ends o bytes n w)
