-- ===== src/Acl/Parse.antt =====
-- acl/parse.go: the text of the rules. linePattern is written out: since its classes do not meet,
-- it matches a line in one way at most.
pub mod Printed
use anytls_go.Common.{
  ℕ, suc, Bytes, List, [], ◌∷◌, Option, none, some, Bool, true, false, ◌&&◌, ◌||◌, length, leb,
  ◌==◌, if◌then◌else◌,
}
use anytls_go.Text.{split, cut, is_digit}
use anytls_go.Text.Words.{trim_space}
use anytls_go.Acl.Compile.{TextRule, Compiled, compiled, failed}

-- \w and \s
abbrev pub is_word : ℕ → Bool
is_word c = is_digit c || (leb b'A' c && leb c b'Z') || (leb b'a' c && leb c b'z') || c == b'_'

abbrev pub is_re_space : ℕ → Bool
is_re_space c = c == 9 || c == 10 || c == 12 || c == 13 || c == 32

unfoldable pub word_first : Bytes → Bytes × Bytes
word_first [] = ([], [])
word_first (c ∷ s) =
    let rest = word_first s in if is_word c then (c ∷ rest.0, rest.1) else ([], c ∷ s)

unfoldable pub skip_re_spaces : Bytes → Bytes
skip_re_spaces [] = []
skip_re_spaces (c ∷ s) = let rest = skip_re_spaces s in if is_re_space c then rest else c ∷ s

-- The text before a last ')'
abbrev pub cons_some : ℕ → Option Bytes → Option Bytes
cons_some c none = none
cons_some c (some s) = some (c ∷ s)

unfoldable pub before_last : Bytes → Option Bytes
before_last [] = none
before_last (c ∷ []) = if c == b')' then some [] else none
before_last (c ∷ d ∷ s) = cons_some c (before_last (d ∷ s))

abbrev pub rule_of : ℕ → Bytes → Bytes → Bytes → Bytes → TextRule
rule_of num name a p h = record {
  outbound = name;
  address = trim_space a;
  proto_port = trim_space p;
  hijack_address = trim_space h;
  line_num = num;
}

abbrev pub is_given : Bytes → Bool
is_given [] = false
is_given (c ∷ s) = true

-- The fields between commas, none of them empty
abbrev pub with_fields : ℕ → Bytes → List Bytes → Option TextRule
with_fields num name (a ∷ []) = if is_given a then some (rule_of num name a [] []) else none
with_fields num name (a ∷ p ∷ []) =
    if is_given a && is_given p then some (rule_of num name a p []) else none
with_fields num name (a ∷ p ∷ h ∷ []) =
    if is_given a && is_given p && is_given h then some (rule_of num name a p h) else none
with_fields num name parts = none

abbrev pub with_inner : ℕ → Bytes → Option Bytes → Option TextRule
with_inner num name none = none
with_inner num name (some inner) = with_fields num name (split b',' inner)

abbrev pub with_body : ℕ → Bytes → Bytes → Option TextRule
with_body num [] body = none
with_body num (c ∷ name) [] = none
with_body num (c ∷ name) (d ∷ body) =
    if d == b'(' then with_inner num (c ∷ name) (before_last body) else none

abbrev pub with_name : ℕ → Bytes × Bytes → Option TextRule
with_name num (name, rest) = with_body num name (skip_re_spaces rest)

-- parseLine
unfoldable pub parse_line : Bytes → ℕ → Option TextRule
unfolding word_first skip_re_spaces before_last split trim_space
parse_line line num = with_name num (word_first line)

-- A line without its comment, then trimmed
abbrev pub no_comment : Bytes → Option (Bytes × Bytes) → Bytes
no_comment line none = line
no_comment line (some (before, after)) = before

unfoldable pub clean : Bytes → Bytes
unfolding cut trim_space
clean line = trim_space (no_comment line (cut b'#' line))

pub record InvalidSyntaxError : Type 0 where
  pub line : Bytes
  pub line_num : ℕ

abbrev pub Rules : Type 0
Rules = Compiled InvalidSyntaxError (List TextRule)

abbrev pub cons_rule : TextRule → Rules → Rules
cons_rule r (compiled rs) = compiled (r ∷ rs)
cons_rule r (failed e) = failed e

abbrev pub add_line : Bytes → ℕ → Option TextRule → Rules → Rules
add_line line num none rest = failed (record { line = line; line_num = num })
add_line line num (some r) rest = cons_rule r rest

-- ParseTextRules from a line number on
unfoldable pub parse_lines : ℕ → List Bytes → Rules
unfolding clean parse_line
parse_lines num [] = compiled []
parse_lines num (given ∷ lines) =
    let rest = parse_lines (suc num) lines in
    if length (clean given) == 0
    then rest
    else add_line (clean given) num (parse_line (clean given) num) rest

unfoldable pub parse_text_rules : Bytes → Rules
unfolding split parse_lines
parse_text_rules text = parse_lines 1 (split 10 text)
