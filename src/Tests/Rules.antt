-- ===== src/Tests/Rules.antt =====
-- The command rules on requests of tests/command_rules_test.cpp.
use redis_proxy.Base.{ℕ, ◌≡◌, refl, ◌↔◌, ◌⊎◌, true, false, some, codes, get_elem?}
use redis_proxy.Status.{is_ok, status_ok, protocol_error}
use redis_proxy.Rules.Bytes.{bytes_eq, normalize}
use redis_proxy.Rules.Table.{AllowCall, allowed_calls}
use redis_proxy.Rules.{
  CommandRule, default_rules, validate, judge, check_rule, find, assign, allow, allow_all, deny,
  deny_all, set_rule_for_test, rejected_command, rejected_unknown, wrong_arguments,
}
use redis_proxy.Rules.Default.{Admits, validate-default, validate-denied}
use redis_proxy.Rules.Lookup.{Respelled, validate-Respelled}

get_lower : validate default_rules (codes "get") 2 ≡ status_ok
unfolding validate judge check_rule default_rules find assign allow allow_all deny deny_all bytes_eq
    normalize
get_lower = refl

set_short : validate default_rules (codes "SET") 2 ≡ protocol_error wrong_arguments
unfolding validate judge check_rule default_rules find assign allow allow_all deny deny_all bytes_eq
    normalize
set_short = refl

unknown : validate default_rules (codes "NOPE") 1 ≡ protocol_error rejected_unknown
unfolding validate judge check_rule default_rules find assign allow allow_all deny deny_all bytes_eq
    normalize
unknown = refl

validate-default_example :
    (is_ok (validate default_rules (codes "mget") 7) ≡ true)
    ↔ ((i : ℕ) × (c : AllowCall) × (get_elem? allowed_calls i ≡ some c) × Admits (codes "mget") 7 c)
validate-default_example = validate-default (codes "mget") 7

validate-denied_example : validate default_rules (codes "Auth") 2 ≡ protocol_error rejected_command
unfolding normalize
validate-denied_example = validate-denied 0 (codes "AUTH") (codes "Auth") 2 refl refl

abbrev test_rule : CommandRule
test_rule = record {
  allowed = true;
  min_argc = 1;
  max_argc = 2;
  read = true;
  write = false;
  dangerous = false;
}

validate-Respelled_example :
    Respelled (codes "zAdd") (codes "ZadD")
      × (validate default_rules (codes "ZadD") 4 ≡ validate default_rules (codes "zAdd") 4)
      × (validate (set_rule_for_test default_rules (codes "zAdd") test_rule) (codes "ZadD") 4
          ≡ check_rule test_rule 4)
    ⊎ (¬ Respelled (codes "zAdd") (codes "ZadD"))
      × (validate (set_rule_for_test default_rules (codes "zAdd") test_rule) (codes "ZadD") 4
          ≡ validate default_rules (codes "ZadD") 4)
validate-Respelled_example =
    validate-Respelled default_rules (codes "zAdd") (codes "ZadD") test_rule 4
