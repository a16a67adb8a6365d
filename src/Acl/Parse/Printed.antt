-- ===== src/Acl/Parse/Printed.antt =====
-- Rules that are written one to a line are parsed as they are.
pub mod Pieces
use anytls_go.Common.{
  ℕ, suc, Bytes, List, [], ◌∷◌, ◌++◌, some, true, false, length, ◌==◌, if◌then◌else◌, ◌≡◌, ◌≢◌,
  refl, sym, ap, ◌∙◌, arith, All, All-append, map, append_assoc,
}
use anytls_go.Text.{split, cut, join}
use anytls_go.Text.Lines.{Lacks, split-join}
use anytls_go.Text.Words.{is_space, trim_space, trim_left, trim_right}
use anytls_go.Acl.Compile.{TextRule, Compiled, compiled}
use anytls_go.Acl.Parse.{
  is_word, skip_re_spaces, before_last, rule_of, with_fields, with_inner, with_body, with_name,
  parse_line, no_comment, clean, cons_rule, add_line, parse_lines, parse_text_rules,
}
use anytls_go.Acl.Parse.Printed.Pieces.{
  word_stops, last_cut, trim_end, word_not_space, cut-Lacks, word-Lacks,
}

-- The fields of a rule that are there
abbrev pub fields_of : Bytes → Bytes → Bytes → List Bytes
fields_of a [] h = a ∷ []
fields_of a (c ∷ p) [] = a ∷ (c ∷ p) ∷ []
fields_of a (c ∷ p) (d ∷ h) = a ∷ (c ∷ p) ∷ (d ∷ h) ∷ []

abbrev pub show_rule : TextRule → Bytes
show_rule r =
    r.outbound
    ++ (b'(' ∷ (join b',' (fields_of r.address r.proto_port r.hijack_address) ++ (b')' ∷ [])))

-- A text that a line can hold between two commas
pub record IsField (s : Bytes) : Type 0 where
  pub no_comma : Lacks b',' s
  pub no_hash : Lacks b'#' s
  pub no_newline : Lacks 10 s
  pub trimmed : trim_space s ≡ s

pub record IsPrintable (r : TextRule) : Type 0 where
  pub word : All (λ c. is_word c ≡ true) r.outbound
  pub named : r.outbound ≢ []
  pub address_field : IsField r.address
  pub address_given : r.address ≢ []
  pub proto_field : IsField r.proto_port
  pub hijack_field : IsField r.hijack_address
  pub hijack_last : (r.proto_port ≡ []) → r.hijack_address ≡ []

-- The rules stand on the lines from `num` on.
abbrev pub Numbered : ℕ → List TextRule → Type 0
Numbered num [] = Unit
Numbered num (r ∷ rs) = (r.line_num ≡ num) × IsPrintable r × Numbered (suc num) rs

join-Lacks :
    (sep : ℕ) (a p h : Bytes)
    → sep ≢ b','
    → Lacks sep a
    → Lacks sep p
    → Lacks sep h
    → Lacks sep (join b',' (fields_of a p h))
unfolding join
join-Lacks sep a [] h n ha hp hh = ha
join-Lacks sep a (c ∷ p) [] n ha hp hh = All-append (λ c. c ≢ sep) a _ ha (λ e. n (sym e), hp)
join-Lacks sep a (c ∷ p) (d ∷ h) n ha hp hh =
    All-append (λ c. c ≢ sep) a _ ha
      (λ e. n (sym e), All-append (λ c. c ≢ sep) (c ∷ p) _ hp (λ e. n (sym e), hh))

show-Lacks :
    (sep : ℕ) (r : TextRule)
    → is_word sep ≡ false
    → sep ≢ b','
    → sep ≢ b'('
    → sep ≢ b')'
    → IsPrintable r
    → Lacks sep r.address
    → Lacks sep r.proto_port
    → Lacks sep r.hijack_address
    → Lacks sep (show_rule r)
show-Lacks sep r w n1 n2 n3 v ha hp hh =
    All-append (λ c. c ≢ sep) r.outbound _ (word-Lacks sep r.outbound w v.word)
      (
        λ e. n2 (sym e),
        All-append (λ c. c ≢ sep) (join b',' (fields_of r.address r.proto_port r.hijack_address)) _
            (join-Lacks sep r.address r.proto_port r.hijack_address n1 ha hp hh)
            (λ e. n3 (sym e), tt),
      )

-- The first byte of a rule's text is one of a word.
starts :
    (r : TextRule)
    → IsPrintable r
    → (c : ℕ) × (s : Bytes) × (show_rule r ≡ c ∷ s) × (is_word c ≡ true)
starts r v = starts_with r.outbound refl v.word v.named
  where
    starts_with :
        (w : Bytes)
        → r.outbound ≡ w
        → All (λ c. is_word c ≡ true) w
        → w ≢ []
        → (c : ℕ) × (s : Bytes) × (show_rule r ≡ c ∷ s) × (is_word c ≡ true)
    starts_with [] e h n = absurd (n refl)
    starts_with (c ∷ w) e h n = (
      c,
      _,
      ap
          (λ o.
            o
            ++ (b'('
                ∷ (join b',' (fields_of r.address r.proto_port r.hijack_address) ++ (b')' ∷ []))))
          e,
      h.0,
    )

trim_start : (c : ℕ) (s : Bytes) → is_word c ≡ true → trim_left is_space (c ∷ s) ≡ c ∷ s
unfolding trim_left
trim_start c s h = ap (λ b. if b then trim_left is_space s else c ∷ s) (word_not_space c h)

trim-show : (r : TextRule) → IsPrintable r → trim_space (show_rule r) ≡ show_rule r
unfolding trim_space
trim-show r v =
    let inner = join b',' (fields_of r.address r.proto_port r.hijack_address) in
    let (c, s, e, word) = starts r v in
    let closed : show_rule r ≡ (r.outbound ++ (b'(' ∷ inner)) ++ (b')' ∷ []) =
      sym (append_assoc r.outbound (b'(' ∷ inner) (b')' ∷ [])) in
    ap (trim_right is_space) (ap (trim_left is_space) e ∙ trim_start c s word ∙ sym e ∙ closed)
    ∙ trim_end (r.outbound ++ (b'(' ∷ inner))
    ∙ sym closed

clean-show : (r : TextRule) → IsPrintable r → clean (show_rule r) ≡ show_rule r
unfolding clean
clean-show r v =
    let lacks =
      show-Lacks b'#' r refl (λ e. omega arith) (λ e. omega arith) (λ e. omega arith) v
        v.address_field.no_hash v.proto_field.no_hash v.hijack_field.no_hash in
    ap (λ o. trim_space (no_comment (show_rule r) o)) (cut-Lacks b'#' (show_rule r) lacks)
    ∙ trim-show r v

fields_there : (a p h : Bytes) → fields_of a p h ≢ []
fields_there a [] h e = cc
fields_there a (c ∷ p) [] e = cc
fields_there a (c ∷ p) (d ∷ h) e = cc

fields-Lacks :
    (a p h : Bytes)
    → Lacks b',' a
    → Lacks b',' p
    → Lacks b',' h
    → All (Lacks b',') (fields_of a p h)
fields-Lacks a [] h ha hp hh = (ha, tt)
fields-Lacks a (c ∷ p) [] ha hp hh = (ha, (hp, tt))
fields-Lacks a (c ∷ p) (d ∷ h) ha hp hh = (ha, (hp, (hh, tt)))

fields_read :
    (num : ℕ) (name a p h : Bytes)
    → a ≢ []
    → (p ≡ [] → h ≡ [])
    → with_fields num name (fields_of a p h) ≡ some (rule_of num name a p h)
fields_read num name [] p h n o = absurd (n refl)
fields_read num name (b ∷ a) [] h n o =
    ap (λ x. some (rule_of num name (b ∷ a) [] x)) (sym (o refl))
fields_read num name (b ∷ a) (c ∷ p) [] n o = refl
fields_read num name (b ∷ a) (c ∷ p) (d ∷ h) n o = refl

rule_again :
    (r : TextRule) (num : ℕ)
    → r.line_num ≡ num
    → IsPrintable r
    → rule_of num r.outbound r.address r.proto_port r.hijack_address ≡ r
rule_again r num e v =
    ap
      (λ x. record {
        outbound = r.outbound;
        address = x;
        proto_port = trim_space r.proto_port;
        hijack_address = trim_space r.hijack_address;
        line_num = num;
      })
      v.address_field.trimmed
    ∙ ap
        (λ x. record {
          outbound = r.outbound;
          address = r.address;
          proto_port = x;
          hijack_address = trim_space r.hijack_address;
          line_num = num;
        })
        v.proto_field.trimmed
    ∙ ap
        (λ x. record {
          outbound = r.outbound;
          address = r.address;
          proto_port = r.proto_port;
          hijack_address = x;
          line_num = num;
        })
        v.hijack_field.trimmed
    ∙ ap
        (λ x. record {
          outbound = r.outbound;
          address = r.address;
          proto_port = r.proto_port;
          hijack_address = r.hijack_address;
          line_num = x;
        })
        (sym e)

named_body :
    (num : ℕ) (w body : Bytes)
    → w ≢ []
    → with_body num w (b'(' ∷ body) ≡ with_inner num w (before_last body)
named_body num [] body n = absurd (n refl)
named_body num (c ∷ w) body n = refl

parse-show :
    (r : TextRule) (num : ℕ)
    → r.line_num ≡ num
    → IsPrintable r
    → parse_line (show_rule r) num ≡ some r
unfolding parse_line skip_re_spaces
parse-show r num e v =
    let fields = fields_of r.address r.proto_port r.hijack_address in
    let inner = join b',' fields in
    ap (with_name num) (word_stops r.outbound (inner ++ (b')' ∷ [])) v.word)
    ∙ named_body num r.outbound (inner ++ (b')' ∷ [])) v.named
    ∙ ap (with_inner num r.outbound) (last_cut inner)
    ∙ ap (with_fields num r.outbound) (
        split-join b',' fields (fields_there r.address r.proto_port r.hijack_address) (
          fields-Lacks r.address r.proto_port r.hijack_address v.address_field.no_comma
            v.proto_field.no_comma v.hijack_field.no_comma))
    ∙ fields_read num r.outbound r.address r.proto_port r.hijack_address v.address_given
        v.hijack_last
    ∙ ap some (rule_again r num e v)

line_kept :
    (num : ℕ) (r : TextRule) (rest : Compiled _ (List TextRule))
    → IsPrintable r
    → (if length (show_rule r) == 0 then rest else add_line (show_rule r) num (some r) rest)
      ≡ cons_rule r rest
line_kept num r rest v =
    let (c, s, e, word) = starts r v in
    ap (λ x. if length x == 0 then rest else cons_rule r rest) e
    ∙ longer (length s) rest (cons_rule r rest)
  where
    longer : {A : Type 0} (n : ℕ) (x y : A) → (if suc n == 0 then x else y) ≡ y
    longer n x y = ground arith

lines_read :
    (num : ℕ) (rs : List TextRule)
    → Numbered num rs
    → parse_lines num (map show_rule rs) ≡ compiled rs
unfolding parse_lines
lines_read num [] h = refl
lines_read num (r ∷ rs) h =
    let rest = parse_lines (suc num) (map show_rule rs) in
    ap (λ x. if length x == 0 then rest else add_line x num (parse_line x num) rest)
      (clean-show r h.1)
    ∙ ap (λ o. if length (show_rule r) == 0 then rest else add_line (show_rule r) num o rest)
        (parse-show r num h.0 h.1)
    ∙ line_kept num r rest h.1
    ∙ ap (cons_rule r) (lines_read (suc num) rs h.2)

no_newlines : (num : ℕ) (rs : List TextRule) → Numbered num rs → All (Lacks 10) (map show_rule rs)
no_newlines num [] h = tt
no_newlines num (r ∷ rs) h = (
  show-Lacks 10 r refl (λ e. omega arith) (λ e. omega arith) (λ e. omega arith) h.1
      h.1.address_field.no_newline h.1.proto_field.no_newline h.1.hijack_field.no_newline,
  no_newlines (suc num) rs h.2,
)

-- Rules that are written one to a line, with their fields between parentheses and commas, are parsed
-- as they are, with the numbers of their lines: if their names are words, and their fields have no
-- comma, hash, newline or outer space, with a hijack address only behind a protocol.
pub parse_text_rules-show :
    (rs : List TextRule)
    → Numbered 1 rs
    → parse_text_rules (join 10 (map show_rule rs)) ≡ compiled rs
unfolding parse_text_rules
parse_text_rules-show [] h =
    unfold join split parse_lines clean cut trim_space trim_left trim_right in refl
parse_text_rules-show (r ∷ rs) h =
    ap (parse_lines 1) (split-join 10 (map show_rule (r ∷ rs)) (λ e. cc) (no_newlines 1 (r ∷ rs) h))
    ∙ lines_read 1 (r ∷ rs) h
