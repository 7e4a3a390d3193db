-- ===== src/Policy/Attributes.antt =====
-- naco/policy/attributes.py: `validate_reply_attributes`, as stored policies are checked (without
-- the dictionary of known names).
use package.text.Mathlib.Text.{starts_with}
use naco.Base.{
  Bool, Dict, List, Result, String, Unicode, [], all_of, any_of, codes, err, false, if◌then◌else◌,
  is_empty, leb, length, ltb, mem_text, not, ok, raise_if, text_length, ℕ, ◌&&◌, ◌==◌, ◌>>=◌, ◌>>◌,
  ◌||◌, ◌∷◌,
}
use naco.Policy.Context.{AttrItem, AttrValue}

-- A value of the JSON object; `other` is any value but a text, an integer or a list of such.
pub data RawItem : Type 0 where
  text : String → RawItem
  number : ℕ → RawItem
  negative : RawItem
  other : RawItem

pub data RawAttr : Type 0 where
  one : RawItem → RawAttr
  many : List RawItem → RawAttr

pub data AttrError : Type 0 where
  too_many_attrs bad_name forbidden_name bad_count out_of_range bad_length expansion control_char
        bad_type :
      AttrError

abbrev pub max_attrs : ℕ
max_attrs = 32

abbrev pub max_values : ℕ
max_values = 10

abbrev pub max_len : ℕ
max_len = 253

-- the characters of `_NAME`
pub is_letter : ℕ → Bool
is_letter c = (leb b'a' c && leb c b'z') || (leb b'A' c && leb c b'Z')

pub is_name_char : ℕ → Bool
unfolding is_letter
is_name_char c = is_letter c || (leb b'0' c && leb c b'9') || c == b'-'

-- `$` also matches before a newline that ends the text
chomp : List ℕ → List ℕ
chomp [] = []
chomp (c ∷ []) = if c == 0x0A then [] else c ∷ []
chomp (c ∷ d ∷ s) = c ∷ chomp (d ∷ s)

name_tail : List ℕ → Bool
unfolding is_name_char
name_tail s = leb (length s) 63 && all_of is_name_char s

-- `_NAME.match(name)`
pub is_name : List ℕ → Bool
unfolding is_letter chomp name_tail
is_name [] = false
is_name (c ∷ s) = is_letter c && name_tail (chomp s)

-- `_FORBIDDEN` and `_FORBIDDEN_PREFIXES`
abbrev pub forbidden : List String
forbidden =
    "tunnel-type" ∷ "tunnel-medium-type" ∷ "tunnel-private-group-id" ∷ "message-authenticator"
    ∷ "eap-message" ∷ "state" ∷ "proxy-state" ∷ "user-password" ∷ "chap-password" ∷ "auth-type" ∷ []

abbrev pub forbidden_prefixes : List String
forbidden_prefixes = "ms-mppe-" ∷ "freeradius-" ∷ "naco-" ∷ []

pub is_forbidden : String → Bool
is_forbidden lowered =
    mem_text lowered forbidden || any_of (λ p. starts_with lowered p) forbidden_prefixes

-- `"%{" in value`
pub has_expansion : List ℕ → Bool
has_expansion [] = false
has_expansion (c ∷ []) = false
has_expansion (c ∷ d ∷ s) = (c == b'%' && d == b'{') || has_expansion (d ∷ s)

pub has_control : List ℕ → Bool
has_control = any_of (λ c. ltb c 0x20 || c == 0x7F)

-- `_check_value`
pub check_value : RawItem → Result AttrError AttrItem
unfolding has_expansion has_control
check_value (RawItem.number n) =
    if leb n 0xFFFFFFFF then ok (AttrItem.number n) else err out_of_range
check_value RawItem.negative = err out_of_range
check_value (RawItem.text s) =
    if is_empty s || ltb max_len (text_length s)
    then err bad_length
    else if has_expansion (codes s)
    then err expansion
    else if has_control (codes s)
    then err control_char
    else ok (AttrItem.text s)
check_value RawItem.other = err bad_type

-- `[_check_value(name, v) for v in value]`
pub check_values : List RawItem → Result AttrError (List AttrItem)
unfolding check_value
check_values [] = ok []
check_values (v ∷ vs) = do i ← check_value v; is ← check_values vs; ok (i ∷ is)

pub check_attr : RawAttr → Result AttrError AttrValue
unfolding check_value check_values
check_attr (RawAttr.one v) = do i ← check_value v; ok (AttrValue.one i)
check_attr (RawAttr.many vs) =
    if not (leb 1 (length vs) && leb (length vs) max_values)
    then err bad_count
    else do is ← check_values vs; ok (AttrValue.many is)

module _ (u : Unicode) where
  -- the names of an object are distinct, so `out[name] = …` adds at the end
  unfoldable pub check_attrs : Dict RawAttr → Result AttrError (Dict AttrValue)
  unfolding is_name is_forbidden check_attr
  check_attrs [] = ok []
  check_attrs ((name, value) ∷ raw) = do
    raise_if (not (is_name (codes name))) bad_name
    raise_if (is_forbidden (u.lower name)) forbidden_name
    v ← check_attr value
    out ← check_attrs raw
    ok ((name, v) ∷ out)

  -- `validate_reply_attributes`
  unfoldable pub validate_reply_attributes : Dict RawAttr → Result AttrError (Dict AttrValue)
  unfolding check_attrs
  validate_reply_attributes raw =
      if ltb max_attrs (length raw) then err too_many_attrs else check_attrs raw
