-- ===== src/StringMap.antt =====
-- util/string_map.go: the key=value lines of settings and padding schemes. A Go map is an
-- association list; the order of its entries stands for the order in which `range` visits them.
pub mod RoundTrip
use anytls_go.Common.{Bytes, List, [], ◌∷◌, ◌++◌, map, Option, none, some}
use anytls_go.Common.Maps.{lookup, insert, bytes_key}
use anytls_go.Text.{split, cut, join}

abbrev pub StringMap : Type 0
StringMap = List (Bytes × Bytes)

abbrev pub line : Bytes × Bytes → Bytes
line (k, v) = k ++ (b'=' ∷ v)

unfoldable pub to_bytes : StringMap → Bytes
unfolding join
to_bytes m = join b'\n' (map line m)

-- m[v[0]] = v[1] for a line that holds an equals sign
abbrev pub put_line : Option (Bytes × Bytes) → StringMap → StringMap
put_line none m = m
put_line (some (k, v)) m = insert k v m

unfoldable pub read_lines : StringMap → List Bytes → StringMap
unfolding cut insert
read_lines m [] = m
read_lines m (l ∷ ls) = read_lines (put_line (cut b'=' l) m) ls

unfoldable pub from_bytes : Bytes → StringMap
unfolding read_lines split
from_bytes b = read_lines [] (split b'\n' b)

-- m[k], the zero value "" where the key is missing
abbrev pub or_empty : Option Bytes → Bytes
or_empty none = []
or_empty (some v) = v

unfoldable pub get : StringMap → Bytes → Bytes
unfolding lookup
get m k = or_empty (lookup k m)
