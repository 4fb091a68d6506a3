-- ===== src/Pool/Selection.antt =====
-- src/backend_pool.cpp, `BackendPool::select`: the least loaded connection that is up.
use redis_proxy.Base.{
  ℕ, zero, suc, ◌+◌, ◌≤◌, ◌<◌, ◌≡◌, refl, sym, ap, subst, ◌∙◌, inl, inr, Bool, true, false, ◌&&◌,
  [], ◌∷◌, Option, none, some, arith, ltb→lt, if◌then◌else◌, get_elem?, Bool-cases,
}
use redis_proxy.Channel.{Channel, is_healthy}
use redis_proxy.Pool.{Channels, pick, less_loaded, index_of, select, keep_current}

-- A healthy channel at an index from `i` on.
abbrev pub Up : Channels → ℕ → Channel → Type 0
Up cs k c = (get_elem? cs k ≡ some c) × (is_healthy c ≡ true)

-- What the loop has found when it ends: the best so far, or a better one further on.
data Found (cs : Channels) (i : ℕ) (best : Option (ℕ × ℕ)) : Option (ℕ × ℕ) → Type 0 where
  nothing :
      {r : Option (ℕ × ℕ)}
      → best ≡ none
      → r ≡ none
      → ((k : ℕ) (d : Channel) → Up cs k d → ⊥)
      → Found cs i best r
  before :
      {r : Option (ℕ × ℕ)} (j m : ℕ)
      → best ≡ some (j, m)
      → r ≡ some (j, m)
      → ((k : ℕ) (d : Channel) → Up cs k d → m ≤ d.queued_commands)
      → Found cs i best r
  here :
      {r : Option (ℕ × ℕ)} (k : ℕ) (c : Channel)
      → Up cs k c
      → r ≡ some (i + k, c.queued_commands)
      → ((j m : ℕ) → best ≡ some (j, m) → c.queued_commands < m)
      → ((l : ℕ) (d : Channel) → Up cs l d → c.queued_commands ≤ d.queued_commands)
      → ((l : ℕ) (d : Channel) → l < k → Up cs l d → c.queued_commands < d.queued_commands)
      → Found cs i best r

some-injective : {A : Type 0} (a b : A) → some a ≡ some b → a ≡ b
some-injective a b e = cc

-- At the head of the list a healthy channel is the head, or one of the tail.
Up-split :
    (P : ℕ → Type 0) (c : Channel) (cs : Channels)
    → (is_healthy c ≡ true → P c.queued_commands)
    → ((k : ℕ) (d : Channel) → Up cs k d → P d.queued_commands)
    → (k : ℕ) (d : Channel) → Up (c ∷ cs) k d
    → P d.queued_commands
Up-split P c cs p rest zero d (e, h) =
    let ec = some-injective c d e in
    subst (λ z. P z.queued_commands) ec (p (subst (λ z. is_healthy z ≡ true) (sym ec) h))
Up-split P c cs p rest (suc k) d u = rest k d u

earlier :
    (c : Channel) (cs : Channels) (k : ℕ) (q : ℕ)
    → (is_healthy c ≡ true → q < c.queued_commands)
    → ((l : ℕ) (d : Channel) → l < k → Up cs l d → q < d.queued_commands)
    → (l : ℕ) (d : Channel) → l < suc k
    → Up (c ∷ cs) l d
    → q < d.queued_commands
earlier c cs k q lt first zero d under u =
    Up-split (λ n. q < n) c [] lt (λ k d u. absurd (cc u.0)) zero d u
earlier c cs k q lt first (suc l) d under u = first l d (omega (arith, under)) u

i_plus_zero : (i : ℕ) → i ≡ i + 0
i_plus_zero i = omega arith

better :
    (c : Channel) (cs : Channels) (i : ℕ) (best r : Option (ℕ × ℕ))
    → is_healthy c ≡ true
    → ((j m : ℕ) → best ≡ some (j, m) → c.queued_commands < m)
    → Found cs (suc i) (some (i, c.queued_commands)) r
    → Found (c ∷ cs) i best r
better c cs i best r h less (Found.nothing e er none_up) = absurd (cc e)
better c cs i best r h less (Found.before j m e er least) =
    let em : c.queued_commands ≡ m = cc e in
    here 0 c (refl, h) (er ∙ sym e ∙ ap (λ z. some (z, c.queued_commands)) (i_plus_zero i)) less
      (Up-split (λ n. c.queued_commands ≤ n) c cs (λ h'. omega arith)
        (λ k d u. omega (arith, em, least k d u)))
      (λ l d lt u. absurd (omega (arith, lt)))
better c cs i best r h less (Found.here k d u er under least first) =
    let lt : d.queued_commands < c.queued_commands = under i _ refl in
    here (suc k) d u (er ∙ ap (λ z. some (z, d.queued_commands)) (omega arith))
      (λ j m e. omega (arith, lt, less j m e))
      (Up-split (λ n. d.queued_commands ≤ n) c cs (λ h'. omega (arith, lt)) least)
      (earlier c cs k d.queued_commands (λ h'. lt) first)

below :
    (n q : ℕ) (best : Option (ℕ × ℕ))
    → ((j m : ℕ) → best ≡ some (j, m) → n < m)
    → (j m : ℕ) × (best ≡ some (j, m)) × (m ≤ q)
    → n < q
below n q best under (j, m, e, le) = omega (arith, under j m e)

-- A head that is passed over is not up, or no less loaded than the best so far.
worse :
    (c : Channel) (cs : Channels) (i : ℕ) (best r : Option (ℕ × ℕ))
    → (is_healthy c ≡ true → (j m : ℕ) × (best ≡ some (j, m)) × (m ≤ c.queued_commands))
    → Found cs (suc i) best r
    → Found (c ∷ cs) i best r
worse c cs i best r over (Found.nothing e er none_up) =
    nothing e er (Up-split (λ n. ⊥) c cs (λ h. let (j, m, e', le) = over h in cc) none_up)
worse c cs i best r over (Found.before j m e er least) = before j m e er (
    Up-split (λ n. m ≤ n) c cs
      (λ h. let (j', m', e', le) = over h in let em : m ≡ m' = cc in omega arith) least)
worse c cs i best r over (Found.here k d u er under least first) =
    let less =
      λ (h : is_healthy c ≡ true). below d.queued_commands c.queued_commands best under (over h) in
    here (suc k) d u (er ∙ ap (λ z. some (z, d.queued_commands)) (omega arith)) under
      (Up-split (λ n. d.queued_commands ≤ n) c cs (λ h. omega (arith, less h)) least)
      (earlier c cs k d.queued_commands less first)

over_none :
    (n : ℕ) (best : Option (ℕ × ℕ))
    → less_loaded n best ≡ true
    → (j m : ℕ) → best ≡ some (j, m)
    → n < m
unfolding less_loaded
over_none n none e j m e' = absurd (cc e')
over_none n (some (a, b)) e j m e' = let em : b ≡ m = cc in omega (arith, ltb→lt n b e)

over_some :
    (n : ℕ) (best : Option (ℕ × ℕ))
    → less_loaded n best ≡ false
    → (j m : ℕ) × (best ≡ some (j, m)) × (m ≤ n)
unfolding less_loaded
over_some n none e = absurd (cc e)
over_some n (some (a, b)) e = (a, b, refl, ground arith)

-- The step of the loop, on whether the channel is up and whether it is less loaded.
pick-step :
    (c : Channel) (cs : Channels) (i : ℕ) (best : Option (ℕ × ℕ)) (up less : Bool)
    → is_healthy c ≡ up
    → less_loaded c.queued_commands best ≡ less
    → Found cs
        (suc i)
        (if up && less then some (i, c.queued_commands) else best)
        (pick cs (suc i) (if up && less then some (i, c.queued_commands) else best))
    → Found
        (c ∷ cs)
        i
        best
        (pick cs (suc i) (if up && less then some (i, c.queued_commands) else best))
pick-step c cs i best true true h l f = better c cs i best _ h (over_none _ best l) f
pick-step c cs i best true false h l f = worse c cs i best _ (λ h'. over_some _ best l) f
pick-step c cs i best false true h l f = worse c cs i best _ (λ h'. absurd (cc)) f
pick-step c cs i best false false h l f = worse c cs i best _ (λ h'. absurd (cc)) f

pick-Found : (cs : Channels) (i : ℕ) (best : Option (ℕ × ℕ)) → Found cs i best (pick cs i best)
unfolding pick
pick-Found [] i none = nothing refl refl (λ k d u. cc u.0)
pick-Found [] i (some (j, m)) = before j m refl refl (λ k d u. absurd (cc u.0))
pick-Found (c ∷ cs) i best =
    pick-step c cs i best (is_healthy c) (less_loaded c.queued_commands best) refl refl (
      pick-Found cs (suc i) (
        if is_healthy c && less_loaded c.queued_commands best
        then some (i, c.queued_commands)
        else best))

-- What `select` promises.
pub data Selects (cs : Channels) : Option ℕ → Option ℕ → Type 0 where
  kept :
      {o r : Option ℕ} (i : ℕ) (c : Channel) → o ≡ some i → Up cs i c → r ≡ some i → Selects cs o r
  lost :
      {o r : Option ℕ} (i : ℕ)
      → o ≡ some i
      → ((c : Channel) → Up cs i c → ⊥)
      → r ≡ none
      → Selects cs o r
  found :
      {o r : Option ℕ} (i : ℕ) (c : Channel)
      → o ≡ none
      → Up cs i c
      → r ≡ some i
      → ((l : ℕ) (d : Channel) → Up cs l d → c.queued_commands ≤ d.queued_commands)
      → ((l : ℕ) (d : Channel) → l < i → Up cs l d → c.queued_commands < d.queued_commands)
      → Selects cs o r
  all_down :
      {o r : Option ℕ}
      → o ≡ none
      → ((i : ℕ) (c : Channel) → Up cs i c → ⊥)
      → r ≡ none
      → Selects cs o r

Found→Selects :
    (cs : Channels) (r : Option (ℕ × ℕ)) → Found cs 0 none r → Selects cs none (index_of r)
Found→Selects cs r (Found.nothing e er none_up) = all_down refl none_up (ap index_of er)
Found→Selects cs r (Found.before j m e er least) = absurd (cc e)
Found→Selects cs r (Found.here k c u er under least first) =
    found k c refl u (ap index_of er ∙ ap (λ z. some z) (omega arith)) least first

keep-Selects :
    (cs : Channels) (i : ℕ) (o : Option Channel)
    → get_elem? cs i ≡ o
    → Selects cs (some i) (keep_current i o)
unfolding keep_current
keep-Selects cs i none e = lost i refl (λ c u. cc u.0) refl
keep-Selects cs i (some c) e = elim (Bool-cases (is_healthy c)) [
  | inl h ↦ kept i c refl (e, h) (rw h refl)
  | inr h ↦
      lost i refl
        (λ d u. cc (subst (λ z. is_healthy z ≡ false) (some-injective c d (sym e ∙ u.0)) h, u.1))
        (rw h refl)
]

-- `select` keeps a connection that a session already has if and only if that connection is up, and never
-- moves the session to another. For a session without one it finds a connection if and only if some
-- connection is up: one with the fewest queued commands, and the first of these.
pub select-Selects : (current : Option ℕ) (cs : Channels) → Selects cs current (select current cs)
unfolding select
select-Selects none cs = Found→Selects cs (pick cs 0 none) (pick-Found cs 0 none)
select-Selects (some i) cs = keep-Selects cs i (get_elem? cs i) refl
