-- ===== src/StringMap/RoundTrip.antt =====
-- A string map survives the wire.
use anytls_go.Common.{
  ◌≡◌, refl, sym, ap, ◌∙◌, append_assoc, append-nil, Bytes, [], ◌∷◌, ◌++◌, map, none, arith, All,
  All-append,
}
use anytls_go.Common.Maps.{lookup, insert, bytes_key}
use anytls_go.Text.Lines.{Lacks, split-join, cut-append}
use anytls_go.StringMap.{StringMap, line, to_bytes, put_line, read_lines, from_bytes}

-- Every key is new to the entries before it.
abbrev pub IsMap : StringMap → StringMap → Type 0
IsMap seen [] = Unit {0}
IsMap seen ((k, v) ∷ m) = (lookup k seen ≡ none) × IsMap (seen ++ (k, v) ∷ []) m

-- No key holds an equals sign or a line break, and no value a line break.
abbrev pub IsPlain : StringMap → Type 0
IsPlain = All (λ e. Lacks b'=' (e.0) × Lacks b'\n' (e.0) × Lacks b'\n' (e.1))

insert_new : (k v : Bytes) (m : StringMap) → lookup k m ≡ none → insert k v m ≡ m ++ (k, v) ∷ []
unfolding lookup insert
insert_new k v [] h = refl
insert_new k v ((j, w) ∷ m) h = ground (arith, insert_new k v m)

read_lines_lem :
    (seen m : StringMap) → IsMap seen m → IsPlain m → read_lines seen (map line m) ≡ seen ++ m
unfolding read_lines
read_lines_lem seen [] d p = sym (append-nil seen)
read_lines_lem seen ((k, v) ∷ m) d p =
    ap (λ x. read_lines (put_line x seen) (map line m)) (cut-append b'=' k v p.0.0)
    ∙ ap (λ x. read_lines x (map line m)) (insert_new k v seen d.0)
    ∙ read_lines_lem (seen ++ (k, v) ∷ []) m d.1 p.1
    ∙ append_assoc seen ((k, v) ∷ []) m

lines-Lacks : (m : StringMap) → IsPlain m → All (Lacks b'\n') (map line m)
lines-Lacks [] p = tt
lines-Lacks ((k, v) ∷ m) p =
    (All-append _ k (b'=' ∷ v) p.0.1 (omega arith, p.0.2), lines-Lacks m p.1)

-- Reading the bytes of a map gives the map back, in whatever order its entries were written, if no
-- key occurs twice, no key holds an equals sign or a line break, and no value a line break.
pub from_bytes-to_bytes : (m : StringMap) → IsMap [] m → IsPlain m → from_bytes (to_bytes m) ≡ m
unfolding from_bytes to_bytes
from_bytes-to_bytes [] d p = refl
from_bytes-to_bytes ((k, v) ∷ m) d p =
    ap (read_lines [])
      (split-join b'\n' (map line ((k, v) ∷ m)) (λ e. cc) (lines-Lacks ((k, v) ∷ m) p))
    ∙ read_lines_lem [] ((k, v) ∷ m) d p
