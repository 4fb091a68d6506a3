-- ===== src/Rules/Default.antt =====
-- src/command_rules.cpp, `CommandRules::Default`: what the finished table accepts.
use redis_proxy.Base.{
  ℕ, suc, zero, ◌≤◌, ◌≡◌, refl, ap, ◌∙◌, ◌↔◌, ◌⊎◌, inl, inr, Bool, true, false, ◌&&◌, ◌||◌, not,
  List, [], ◌∷◌, Option, none, some, arith, ◌==◌, if◌then◌else◌, get_elem?, Option-cases,
  Bool-cases,
}
use redis_proxy.Status.{is_ok, status_ok, protocol_error}
use redis_proxy.Rules.Bytes.{bytes_eq, bytes_eq-cases, bytes_eq_refl, normalize}
use redis_proxy.Rules.Table.{AllowCall, allowed_calls, denied}
use redis_proxy.Rules.Lookup.{find-assign}
use redis_proxy.Rules.{
  CommandRule, CommandRules, find, assign, allow, allow_all, deny, deny_all, denial, default_rules,
  check_rule, judge, validate, rejected_command,
}

abbrev rule_of : AllowCall → CommandRule
rule_of c = record {
  allowed = true;
  min_argc = c.min_argc;
  max_argc = c.max_argc;
  read = c.read;
  write = c.write;
  dangerous = false;
}

listed : List ℕ → List (List ℕ) → Bool
listed k [] = false
listed k (d ∷ ds) = bytes_eq (normalize d) k || listed k ds

find-deny_all :
    (k : List ℕ) (ds : List (List ℕ)) (m : CommandRules)
    → find k (deny_all m ds) ≡ (if listed k ds then some denial else find k m)
unfolding deny_all deny listed
find-deny_all k [] m = refl
find-deny_all k (d ∷ ds) m =
    find-deny_all k ds (deny m d) ∙ ground (arith, find-assign k (normalize d) denial m)

-- The table built by the calls `cs` holds, under a key, nothing but the rule of one of them.
find-allow_all :
    (k : List ℕ) (cs : List AllowCall) (m : CommandRules) (r : CommandRule)
    → find k (allow_all m cs) ≡ some r
    → ((i : ℕ) × (c : AllowCall) × (get_elem? cs i ≡ some c)
        × (normalize c.command ≡ k)
        × (r ≡ rule_of c))
      ⊎ (find k m ≡ some r)
unfolding allow_all allow
find-allow_all k [] m r h = inr h
find-allow_all k (c ∷ cs) m r h =
    elim (find-allow_all k cs (allow m c.command c.min_argc c.max_argc c.read c.write) r h) [
      | inl (i, d, at, e, p) ↦ inl (suc i, d, at, e, p)
      | inr f ↦ elim (bytes_eq-cases (normalize c.command) k) [
        | inl (t, e) ↦ inl (
          zero,
          c,
          refl,
          e,
          ground (arith, find-assign k (normalize c.command) (rule_of c) m, f, t),
        )
        | inr t ↦ inr (ground (arith, find-assign k (normalize c.command) (rule_of c) m, f, t))
      ]
    ]

bool_eq : Bool → Bool → Bool
bool_eq true b = b
bool_eq false b = not b

holds : AllowCall → Option CommandRule → Bool
unfolding bool_eq
holds c none = false
holds c (some r) =
    r.allowed
    && not r.dangerous
    && (r.min_argc == c.min_argc)
    && (r.max_argc == c.max_argc)
    && bool_eq r.read c.read
    && bool_eq r.write c.write

-- Each call's own entry, looked up in the finished table, is the one that the call made.
kept : List AllowCall → Bool
kept [] = true
kept (c ∷ cs) = holds c (find (normalize c.command) default_rules) && kept cs

kept_all : kept allowed_calls ≡ true
unfolding kept holds default_rules find assign allow_all allow deny_all deny bytes_eq normalize
kept_all = refl

holds_lem : (c : AllowCall) (o : Option CommandRule) → holds c o ≡ true → o ≡ some (rule_of c)
unfolding holds
holds_lem c none h = ground arith
holds_lem c (some r) h = ground arith

kept_lem :
    (cs : List AllowCall) (i : ℕ) (c : AllowCall)
    → kept cs ≡ true
    → get_elem? cs i ≡ some c
    → holds c (find (normalize c.command) default_rules) ≡ true
unfolding kept
kept_lem [] i c h e = ground arith
kept_lem (d ∷ cs) zero c h e = ground arith
kept_lem (d ∷ cs) (suc i) c h e = kept_lem cs i c (ground arith) e

find-default :
    (i : ℕ) (c : AllowCall)
    → get_elem? allowed_calls i ≡ some c
    → find (normalize c.command) default_rules ≡ some (rule_of c)
find-default i c e = holds_lem c _ (kept_lem allowed_calls i c kept_all e)

-- The row of the table of `Default` that lets a command with so many arguments through.
abbrev pub Admits : List ℕ → ℕ → AllowCall → Type 0
Admits command argc c =
    (normalize c.command ≡ normalize command) × (c.min_argc ≤ argc) × (argc ≤ c.max_argc)

check_rule-allowed :
    (c : AllowCall) (argc : ℕ)
    → is_ok (check_rule (rule_of c) argc) ≡ true
    → (c.min_argc ≤ argc) × (argc ≤ c.max_argc)
unfolding check_rule
check_rule-allowed c argc h = ground arith

check_rule-admits :
    (c : AllowCall) (argc : ℕ)
    → c.min_argc ≤ argc
    → argc ≤ c.max_argc
    → check_rule (rule_of c) argc ≡ status_ok
unfolding check_rule
check_rule-admits c argc lo hi = ground arith

judge-found :
    (k : List ℕ) (argc : ℕ)
    → is_ok (judge (find k default_rules) argc) ≡ true
    → (r : CommandRule) × (find k default_rules ≡ some r) × (is_ok (check_rule r argc) ≡ true)
unfolding judge
judge-found k argc h = elim (Option-cases (find k default_rules)) [
  | inl e ↦ absurd (cc (ap (λ o. is_ok (judge o argc)) e))
  | inr (r, e) ↦ (r, e, (rw e at h))
]

find-default_row :
    (k : List ℕ) (r : CommandRule) (argc : ℕ)
    → find k default_rules ≡ some r
    → is_ok (check_rule r argc) ≡ true
    → (i : ℕ) × (c : AllowCall) × (get_elem? allowed_calls i ≡ some c)
      × (normalize c.command ≡ k)
      × (r ≡ rule_of c)
unfolding default_rules check_rule find
find-default_row k r argc f ok = elim (Bool-cases (listed k denied)) [
  | inl e ↦ absurd (ground (arith, find-deny_all k denied (allow_all [] allowed_calls)))
  | inr e ↦
      elim (find-allow_all k allowed_calls [] r
        (ground (arith, find-deny_all k denied (allow_all [] allowed_calls)))) [
          | inl row ↦ row
          | inr none_left ↦ absurd (ground arith)
        ]
]

-- The default rules let a command through exactly when a row of the table of `allow` calls has its
-- name, in any spelling, and admits the number of arguments.
pub validate-default :
    (command : List ℕ) (argc : ℕ)
    → (is_ok (validate default_rules command argc) ≡ true)
      ↔ ((i : ℕ) × (c : AllowCall) × (get_elem? allowed_calls i ≡ some c) × Admits command argc c)
unfolding validate judge
validate-default command argc = (accepted, admitted)
  where
    accepted :
        is_ok (validate default_rules command argc) ≡ true
        → (i : ℕ) × (c : AllowCall) × (get_elem? allowed_calls i ≡ some c) × Admits command argc c
    accepted h =
        let (r, f, ok) = judge-found (normalize command) argc h in
        let (i, c, at, e, p) = find-default_row (normalize command) r argc f ok in
        let (lo, hi) = check_rule-allowed c argc (rw p at ok) in (i, c, at, (e, lo, hi))

    admitted :
        (i : ℕ) × (c : AllowCall) × (get_elem? allowed_calls i ≡ some c) × Admits command argc c
        → is_ok (validate default_rules command argc) ≡ true
    admitted (i, c, at, (e, lo, hi)) =
        let found : find (normalize command) default_rules ≡ some (rule_of c) =
          rw (← e) (find-default i c at) in
        rw found (ap is_ok (check_rule-admits c argc lo hi))

mem_listed :
    (k : List ℕ) (ds : List (List ℕ)) (i : ℕ) (d : List ℕ)
    → get_elem? ds i ≡ some d
    → normalize d ≡ k
    → listed k ds ≡ true
unfolding listed
mem_listed k [] i d at e = ground arith
mem_listed k (x ∷ ds) zero d at e = ground (arith, bytes_eq_refl k)
mem_listed k (x ∷ ds) (suc i) d at e = ground (arith, mem_listed k ds i d at e)

-- Every spelling of a name of the deny list is refused by the default rules with the same error,
-- whatever the number of arguments.
pub validate-denied :
    (i : ℕ) (d command : List ℕ) (argc : ℕ)
    → get_elem? denied i ≡ some d
    → normalize d ≡ normalize command
    → validate default_rules command argc ≡ protocol_error rejected_command
unfolding validate default_rules judge check_rule
validate-denied i d command argc at e = rw (
  find-deny_all (normalize command) denied (allow_all [] allowed_calls),
  mem_listed (normalize command) denied i d at e,
)
