-- ===== src/Netutils/Vendors.antt =====
-- naco/core/oui.py: the vendor of a MAC address, from the lines of the table that the package holds.
use naco.Base.{
  Dict, List, String, Unicode, [], codes, get, if◌then◌else◌, is_empty, keep, leb, map, none, not,
  or_empty, put, some, take, ℕ, ◌&&◌, ◌-◌, ◌==◌, ◌∷◌,
}
use naco.Netutils.{is_randomized_mac, normalize_mac, text_of}

-- `line.partition(",")`: the texts before and after the first comma
pub partition : List ℕ → List ℕ × List ℕ
partition [] = ([], [])
partition (c ∷ s) =
    let (prefix, name) = partition s in if c == b',' then ([], s) else (c ∷ prefix, name)

-- `_table` after unpacking; a later line of the same prefix replaces an earlier one
pub table_from : List (List ℕ) → Dict String → Dict String
unfolding partition
table_from [] table = table
table_from (line ∷ lines) table =
    let (prefix, name) = partition line in
    table_from lines
      (if is_empty (text_of prefix) then table else put table (text_of prefix) (text_of name))

-- `.upper()` on hex digits
pub hex_upper : ℕ → ℕ
hex_upper c = if leb b'a' c && leb c b'f' then c - 32 else c

-- `norm.replace(":", "")[:6].upper()`
pub prefix_of : List ℕ → List ℕ
unfolding hex_upper
prefix_of norm = map hex_upper (take 6 (keep (λ c. not (c == b':')) norm))

unfoldable pub vendor_for : Unicode → Dict String → String → String
unfolding prefix_of
vendor_for u table mac = elim (normalize_mac u (some mac)) [
  | none ↦ ""
  | some norm ↦
      if is_randomized_mac u norm
      then ""
      else or_empty (get table (text_of (prefix_of (codes norm))))
]
