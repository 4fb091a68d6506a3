-- ===== src/Session/Debt.antt =====
-- src/backend_channel.cpp, as a session sees it: how many replies a connection owes to an owner.
use redis_proxy.Base.{
  ℕ, zero, suc, ◌+◌, ◌<◌, ◌≡◌, refl, sym, ap, ◌∙◌, Bool, true, false, List, [], ◌∷◌, ◌++◌, Option,
  none, some, arith, replicate, ◌==◌, if◌then◌else◌,
}
use redis_proxy.Channel.{
  Channel, Event, Notice, submitted, detached, deliver, failures, owned_by, submit, is_healthy,
  detach_owner as detach_channel,
}
use redis_proxy.Status.{Status}
use redis_proxy.Buffer.Chain.{Chain}
use redis_proxy.Channel.Slots.{mask_all, without}
use redis_proxy.Channel.Owners.{times, owes}
use redis_proxy.Channel.Fifo.{View, view, Serves, view-detach_owner, view-submit}

abbrev pub one_if : Bool → ℕ
one_if true = 1
one_if false = 0

unfoldable pub tally : ℕ → List (Option ℕ) → ℕ
tally o [] = 0
tally o (s ∷ ss) = one_if (owned_by o s) + tally o ss

pub tally-append : (o : ℕ) (xs ys : List (Option ℕ)) → tally o (xs ++ ys) ≡ tally o xs + tally o ys
unfolding tally
tally-append o [] ys = omega arith
tally-append o (x ∷ xs) ys = omega (arith, tally-append o xs ys)

pub tally-replicate :
    (o n : ℕ) (s : Option ℕ) → tally o (replicate n s) ≡ (if owned_by o s then n else 0)
unfolding tally
tally-replicate o zero s = ground arith
tally-replicate o (suc n) s = ground (arith, tally-replicate o n s)

tally-mask_all :
    (o p : ℕ) (xs : List (Option ℕ)) → tally o (mask_all p xs) ≡ (if p == o then 0 else tally o xs)
unfolding tally mask_all
tally-mask_all o p [] = ground arith
tally-mask_all o p (none ∷ xs) = ground (arith, tally-mask_all o p xs)
tally-mask_all o p (some q ∷ xs) = ground (arith, tally-mask_all o p xs)

tally-without :
    (o p : ℕ) (xs : List (Option ℕ)) → tally o (without p xs) ≡ (if p == o then 0 else tally o xs)
unfolding tally without
tally-without o p [] = ground arith
tally-without o p (none ∷ xs) = ground (arith, tally-without o p xs)
tally-without o p (some q ∷ xs) = ground (arith, tally-without o p xs)

pub tally-owes : (o : ℕ) (xs : List (Option ℕ)) → owes o xs ≡ false → tally o xs ≡ 0
unfolding tally owes
tally-owes o [] e = refl
tally-owes o (x ∷ xs) e = ground (arith, tally-owes o xs)

abbrev pub view_debt : ℕ → View → ℕ
view_debt o v = tally o v.started + tally o v.waiting

-- The replies that a connection owes to `o`: sent or not yet sent.
abbrev pub debt : ℕ → Channel → ℕ
debt o c = view_debt o (view c)

-- How an event of a channel changes what it owes to `o`.
pub data Change (o before after : ℕ) : Event → List Notice → Type 0 where
  same : (e : Event) → after ≡ before → Change o before after e []
  more :
      (p : Option ℕ) (bytes : Chain) (n : ℕ)
      → after ≡ before + (if owned_by o p then n else 0)
      → Change o before after (submitted p bytes n) []
  less :
      (e : Event) (s : Option ℕ) (r : Chain)
      → before ≡ after + one_if (owned_by o s)
      → Change o before after e (deliver s r)
  dropped : (p : ℕ) → after ≡ (if p == o then 0 else before) → Change o before after (detached p) []
  lost :
      (e : Event) (status : Status) (os : List ℕ)
      → after ≡ 0
      → (times o os ≡ 0 → before ≡ 0)
      → Change o before after e (failures status os)

owes-none :
    (o : ℕ) (os : List ℕ) (b : Bool)
    → times o os ≡ (if b then 1 else 0)
    → times o os ≡ 0
    → b ≡ false
owes-none o os true e z = absurd (omega (arith, e, z))
owes-none o os false e z = refl

tally-head :
    (o : ℕ) (s : Option ℕ) (xs : List (Option ℕ))
    → tally o (s ∷ xs) ≡ one_if (owned_by o s) + tally o xs
unfolding tally
tally-head o s xs = refl

tally-nil : (o : ℕ) → tally o [] ≡ 0
unfolding tally
tally-nil o = refl

-- What a served event does to the debt.
pub Serves-Change :
    {e : Event} {ns : List Notice} (o : ℕ) (v w : View)
    → Serves v w e ns
    → Change o (view_debt o v) (view_debt o w) e ns
Serves-Change o v w (Serves.ignores e i same_view) = same e (ap (view_debt o) same_view)
Serves-Change o v w (Serves.asks p bytes n up pos to) = more p bytes n (
    ap (view_debt o) to
    ∙ omega (arith, tally-append o v.waiting (replicate n p), tally-replicate o n p))
Serves-Change o v w (Serves.starts p n rest up pos from to) = same _ (
    ap (view_debt o) to
    ∙ omega (
      arith,
      tally-append o v.started (replicate n p),
      ap (tally o) from,
      tally-append o (replicate n p) rest,
    ))
Serves-Change o v w (Serves.answers s rest r up from to) =
    less _ s r (omega (arith, ap (tally o) from, tally-head o s rest, ap (view_debt o) to))
Serves-Change o v w (Serves.leaves p to) = dropped p (
    ap (view_debt o) to ∙ ground (arith, tally-mask_all o p v.started, tally-without o p v.waiting))
Serves-Change o v w (Serves.breaks e status os up breaking to once) =
    lost e status os (ap (view_debt o) to ∙ omega (arith, tally-nil o)) (λ z.
      sym (tally-append o v.started v.waiting)
      ∙ tally-owes o (v.started ++ v.waiting) (owes-none o os _ (once o) z))

pub debt-detach_owner :
    (o p : ℕ) (c : Channel) → debt o (detach_channel p c) ≡ (if p == o then 0 else debt o c)
debt-detach_owner o p c =
    ap (view_debt o) (view-detach_owner p c)
    ∙ ground (arith, tally-mask_all o p (view c).started, tally-without o p (view c).waiting)

pub debt-submit :
    (o p : ℕ) (bytes : Chain) (n : ℕ) (c : Channel)
    → is_healthy c ≡ true
    → 0 < n
    → debt o (submit (some p) bytes n c).0 ≡ debt o c + (if p == o then n else 0)
debt-submit o p bytes n c up pos =
    ap (view_debt o) (view-submit (some p) bytes n c up pos)
    ∙ omega (
      arith,
      tally-append o (view c).waiting (replicate n (some p)),
      tally-replicate o n (some p),
    )
