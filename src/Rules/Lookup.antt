-- ===== src/Rules/Lookup.antt =====
-- src/command_rules.cpp: the rule table as a map, and what `validate` reads from it.
use redis_proxy.Base.{
  ℕ, ◌≡◌, ◌≤◌, ◌+◌, ◌⊎◌, ◌∙◌, refl, sym, ap, ap₂, inl, inr, List, [], ◌∷◌, some, arith,
  if◌then◌else◌,
}
use redis_proxy.Rules.Bytes.{bytes_eq, bytes_eq-cases, bytes_eq_refl, to_upper, normalize}
use redis_proxy.Rules.{
  CommandRule, CommandRules, find, assign, set_rule_for_test, check_rule, judge, validate,
}

-- `operator[]` with an assignment changes the entry of its key and no other.
pub find-assign :
    (k j : List ℕ) (r : CommandRule) (m : CommandRules)
    → find k (assign j r m) ≡ (if bytes_eq j k then some r else find k m)
unfolding find assign
find-assign k j r [] = refl
find-assign k j r ((i, q) ∷ m) = elim (bytes_eq-cases i j) [
  | inl (e, p) ↦ rw (e, ← p) (ground arith)
  | inr e ↦
      rw (e, assign)
        (elim (bytes_eq-cases i k) [
          | inl (e', p) ↦
              rw (find, e')
                (ground (arith, bytes_eq_refl k, bytes_eq-cases j k, ap (λ x. bytes_eq x j) p))
          | inr e' ↦ rw (find, e') (find-assign k j r m)
        ])
]

pub validate-set_rule_for_test :
    (rules : CommandRules) (command other : List ℕ) (rule : CommandRule) (argc : ℕ)
    → validate (set_rule_for_test rules command rule) other argc ≡ (
        if bytes_eq (normalize command) (normalize other)
        then check_rule rule argc
        else validate rules other argc)
unfolding validate judge set_rule_for_test
validate-set_rule_for_test rules command other rule argc =
    rw (find-assign (normalize other) (normalize command) rule rules) (ground arith)

-- Two bytes are equal, or one is the small letter of the other.
abbrev SameLetter : ℕ → ℕ → Type 0
SameLetter x y =
    (x ≡ y) ⊎ ((97 ≤ x) × (x ≤ 122) × (x ≡ y + 32)) ⊎ ((97 ≤ y) × (y ≤ 122) × (y ≡ x + 32))

-- Two spellings of one name.
abbrev pub Respelled : List ℕ → List ℕ → Type 0
Respelled [] [] = Unit
Respelled [] (y ∷ ys) = ⊥
Respelled (x ∷ xs) [] = ⊥
Respelled (x ∷ xs) (y ∷ ys) = SameLetter x y × Respelled xs ys

to_upper-SameLetter : (x y : ℕ) → SameLetter x y → to_upper x ≡ to_upper y
unfolding to_upper
to_upper-SameLetter x y (inl e) = ap to_upper e
to_upper-SameLetter x y (inr (inl h)) = ground (arith, h)
to_upper-SameLetter x y (inr (inr h)) = ground (arith, h)

SameLetter-to_upper : (x y : ℕ) → to_upper x ≡ to_upper y → SameLetter x y
unfolding to_upper
SameLetter-to_upper x y h = ground arith

normalize-Respelled : (xs ys : List ℕ) → Respelled xs ys → normalize xs ≡ normalize ys
unfolding normalize
normalize-Respelled [] [] h = refl
normalize-Respelled [] (y ∷ ys) h = absurd h
normalize-Respelled (x ∷ xs) [] h = absurd h
normalize-Respelled (x ∷ xs) (y ∷ ys) h =
    ap₂ ◌∷◌ (to_upper-SameLetter x y h.0) (normalize-Respelled xs ys h.1)

Respelled-normalize : (xs ys : List ℕ) → normalize xs ≡ normalize ys → Respelled xs ys
unfolding normalize
Respelled-normalize [] [] h = tt
Respelled-normalize [] (y ∷ ys) h = cc h
Respelled-normalize (x ∷ xs) [] h = cc h
Respelled-normalize (x ∷ xs) (y ∷ ys) h =
    (SameLetter-to_upper x y (cc h), Respelled-normalize xs ys (cc h))

-- Of two commands, either the second is the first up to the case of ASCII letters, and then every rule table
-- gives both the same verdict, and a rule set for the first judges the second; or it is not, and a rule set
-- for the first does not change the verdict on the second.
pub validate-Respelled :
    (rules : CommandRules) (command other : List ℕ) (rule : CommandRule) (argc : ℕ)
    → Respelled command other
        × (validate rules other argc ≡ validate rules command argc)
        × (validate (set_rule_for_test rules command rule) other argc ≡ check_rule rule argc)
      ⊎ (¬ Respelled command other)
        × (validate (set_rule_for_test rules command rule) other argc ≡ validate rules other argc)
unfolding validate
validate-Respelled rules command other rule argc =
    elim (bytes_eq-cases (normalize command) (normalize other)) [
      | inl (e, p) ↦ inl (
        Respelled-normalize command other p,
        ap (λ k. judge (find k rules) argc) (sym p),
        validate-set_rule_for_test rules command other rule argc ∙ rw e refl,
      )
      | inr e ↦ inr (
        (λ h. cc (
          e,
          bytes_eq_refl (normalize other),
          ap (λ k. bytes_eq k (normalize other)) (normalize-Respelled command other h),
        )),
        validate-set_rule_for_test rules command other rule argc ∙ rw e refl,
      )
    ]
