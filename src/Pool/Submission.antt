-- ===== src/Pool/Submission.antt =====
-- src/backend_pool.cpp, `BackendPool::submit`: which connection gets a batch.
use redis_proxy.Base.{
  ℕ, ◌<◌, ◌≡◌, refl, ap, ◌∙◌, ◌⊎◌, inl, inr, true, Option, none, some, arith, if◌then◌else◌, set,
}
use redis_proxy.Buffer.Chain.{Chain}
use redis_proxy.Channel.{Channel, is_healthy, submit as submit_channel}
use redis_proxy.Pool.{Channels, select, submit_at, submit_to, submit}
use redis_proxy.Pool.Selection.{Up, Selects, select-Selects}

-- A batch is refused, or it goes to the back of the connection that `select` names.
pub data Submits (owner current : Option ℕ) (bytes : Chain) (n : ℕ) (cs : Channels)
    : Channels × Option ℕ → Type 0 where
  refused :
      {r : Channels × Option ℕ}
      → select current cs ≡ none
      → r ≡ (cs, none)
      → Submits owner current bytes n cs r
  taken :
      {r : Channels × Option ℕ} (i : ℕ) (c : Channel)
      → select current cs ≡ some i
      → Up cs i c
      → (current ≡ none) ⊎ (current ≡ some i)
      → r ≡ (set cs i (submit_channel owner bytes n c).0, some i)
      → Submits owner current bytes n cs r

channel_takes :
    (owner : Option ℕ) (bytes : Chain) (n : ℕ) (c : Channel)
    → is_healthy c ≡ true
    → 0 < n
    → (submit_channel owner bytes n c).1 ≡ true
unfolding submit_channel
channel_takes owner bytes n c up pos = ground arith

submit_to-taken :
    (owner : Option ℕ) (bytes : Chain) (n i : ℕ) (c : Channel) (cs : Channels)
    → Up cs i c
    → 0 < n
    → submit_to owner bytes n (some i) cs ≡ (set cs i (submit_channel owner bytes n c).0, some i)
unfolding submit_to submit_at
submit_to-taken owner bytes n i c cs u pos = rw u.0 (
    ap (λ t. (set cs i (submit_channel owner bytes n c).0, if t then some i else none))
      (channel_takes owner bytes n c u.1 pos))

submit_to-refused :
    (owner : Option ℕ) (bytes : Chain) (n : ℕ) (cs : Channels)
    → submit_to owner bytes n none cs ≡ (cs, none)
unfolding submit_to
submit_to-refused owner bytes n cs = refl

-- A batch of at least one command is refused, with every queue unchanged, if and only if `select` finds no
-- connection; otherwise it goes to the back of the queue of the connection that `select` names, which is
-- up and is the current one of the session if it has one, and no other connection changes.
pub submit-Submits :
    (owner current : Option ℕ) (bytes : Chain) (n : ℕ) (cs : Channels)
    → 0 < n
    → Submits owner current bytes n cs (submit owner current bytes n cs)
unfolding submit
submit-Submits owner current bytes n cs pos = by_selection (select-Selects current cs)
  where
    at :
        {i : ℕ}
        → select current cs ≡ some i
        → submit owner current bytes n cs ≡ submit_to owner bytes n (some i) cs
    at e = ap (λ s. submit_to owner bytes n s cs) e

    down :
        select current cs ≡ none
        → Submits owner current bytes n cs (submit owner current bytes n cs)
    down e =
        refused e (ap (λ s. submit_to owner bytes n s cs) e ∙ submit_to-refused owner bytes n cs)

    up :
        (i : ℕ) (c : Channel)
        → select current cs ≡ some i
        → Up cs i c
        → (current ≡ none) ⊎ (current ≡ some i)
        → Submits owner current bytes n cs (submit owner current bytes n cs)
    up i c e u own = taken i c e u own (at e ∙ submit_to-taken owner bytes n i c cs u pos)

    by_selection :
        Selects cs current (select current cs)
        → Submits owner current bytes n cs (submit owner current bytes n cs)
    by_selection (Selects.kept i c e u r) = up i c r u (inr e)
    by_selection (Selects.lost i e gone r) = down r
    by_selection (Selects.found i c e u r least first) = up i c r u (inl e)
    by_selection (Selects.all_down e gone r) = down r
