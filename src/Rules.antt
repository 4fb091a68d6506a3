-- ===== src/Rules.antt =====
-- src/command_rules.cpp and include/redis_proxy/command_rules.h: the table of the commands that the
-- proxy lets through. The `unordered_map` is an association list with one entry for each key.
pub mod Bytes
pub mod Table
pub mod Lookup
pub mod Default
use redis_proxy.Base.{
  ℕ, Bool, true, false, not, ◌||◌, List, [], ◌∷◌, Option, none, some, codes, ltb, if◌then◌else◌,
}
use redis_proxy.Status.{Status, status_ok, protocol_error}
use Bytes.{bytes_eq, normalize}
use Table.{AllowCall, allowed_calls, denied}

pub record CommandRule : Type 0 where
  pub allowed : Bool
  pub min_argc : ℕ
  pub max_argc : ℕ
  pub read : Bool
  pub write : Bool
  pub dangerous : Bool

abbrev pub CommandRules : Type 0
CommandRules = List (List ℕ × CommandRule)

-- `rules_.find(key)`.
unfoldable pub find : List ℕ → CommandRules → Option CommandRule
find k [] = none
find k ((j, r) ∷ m) = if bytes_eq j k then some r else find k m

-- `rules_[key] = rule`.
unfoldable pub assign : List ℕ → CommandRule → CommandRules → CommandRules
assign k r [] = (k, r) ∷ []
assign k r ((j, q) ∷ m) = if bytes_eq j k then (j, r) ∷ m else (j, q) ∷ assign k r m

unfoldable pub allow : CommandRules → List ℕ → ℕ → ℕ → Bool → Bool → CommandRules
allow rules command lo hi r w =
    assign (normalize command)
      (record {
        allowed = true;
        min_argc = lo;
        max_argc = hi;
        read = r;
        write = w;
        dangerous = false;
      })
      rules

abbrev denial : CommandRule
denial = record {
  allowed = false;
  min_argc = 0;
  max_argc = 0;
  read = false;
  write = false;
  dangerous = true;
}

unfoldable pub deny : CommandRules → List ℕ → CommandRules
deny rules command = assign (normalize command) denial rules

unfoldable pub set_rule_for_test : CommandRules → List ℕ → CommandRule → CommandRules
set_rule_for_test rules command rule = assign (normalize command) rule rules

-- The calls of `allow` in `Default`, one after another.
unfoldable pub allow_all : CommandRules → List AllowCall → CommandRules
allow_all rules [] = rules
allow_all rules (c ∷ cs) = allow_all (allow rules c.command c.min_argc c.max_argc c.read c.write) cs

-- The loop of `Default` over `denied`.
unfoldable pub deny_all : CommandRules → List (List ℕ) → CommandRules
deny_all rules [] = rules
deny_all rules (c ∷ cs) = deny_all (deny rules c) cs

unfoldable pub default_rules : CommandRules
default_rules = deny_all (allow_all [] allowed_calls) denied

abbrev pub rejected_unknown : List ℕ
rejected_unknown = codes "ERR proxy rejected unknown command"

abbrev pub rejected_command : List ℕ
rejected_command = codes "ERR proxy rejected command"

abbrev pub wrong_arguments : List ℕ
wrong_arguments = codes "ERR wrong number of arguments"

-- The tests of `validate` on the rule that it found.
unfoldable pub check_rule : CommandRule → ℕ → Status
check_rule rule argc =
    if not rule.allowed || rule.dangerous
    then protocol_error rejected_command
    else (if ltb argc rule.min_argc || ltb rule.max_argc argc
        then protocol_error wrong_arguments
        else status_ok)

-- The body of `validate`, given the outcome of `rules_.find`.
unfoldable pub judge : Option CommandRule → ℕ → Status
judge none argc = protocol_error rejected_unknown
judge (some rule) argc = check_rule rule argc

unfoldable pub validate : CommandRules → List ℕ → ℕ → Status
validate rules command argc = judge (find (normalize command) rules) argc
