-- ===== src/Policy/Conditions.antt =====
-- naco/policy/conditions.py. pydantic checks types, literals and extra fields first: a `RawCondition`
-- is what it hands to the validators. Times of day are minutes since midnight.
pub mod Windows
use mathlib.Core.Option
use naco.Base.{
  Bool, List, Option, Result, String, Unicode, [], all_of, any_of, codes, err, false, if◌then◌else◌,
  is_empty, is_some, leb, length, ltb, map, mem_text, none, not, ok, or_empty, or_none, some,
  str_eq, strip, text_length, true, ℕ, ◌&&◌, ◌==◌, ◌>>=◌, ◌>>◌, ◌||◌, ◌∷◌,
}
use naco.Netutils.{normalize_mac, text_of}
use naco.Policy.Context.{
  AuthContext, AuthMethod, DeviceState, approved, eap_tls, eap_ttls, guest, mab, pap, peap, pending,
}

abbrev pub max_conditions : ℕ
max_conditions = 20

abbrev pub max_items : ℕ
max_items = 500

abbrev pub max_text : ℕ
max_text = 128

-- `class ValueError`, by message
pub data ValueError : Type 0 where
  not_text text_too_long not_a_list too_many_items bad_mac bad_pattern too_many_conditions :
      ValueError

-- the classes over one free-text field of the context
pub data TextField : Type 0 where
  of_username of_group of_device_type of_vendor of_nas of_ssid : TextField

-- `op` and `value`, as the JSON has them
pub data RawValue : Type 0 where
  one : String → RawValue
  many : List String → RawValue

pub data Op : Type 0 where
  equals not_equals is_in not_in matches_op : Op

pub data RawCondition : Type 0 where
  always : RawCondition
  text : TextField → Op → RawValue → RawCondition
  mac : Op → RawValue → RawCondition
  auth_method : List AuthMethod → RawCondition
  device_status : List DeviceState → RawCondition
  time : ℕ → ℕ → List ℕ → RawCondition

-- a validated `op` with its value
pub data TextTest : Type 0 where
  equals not_equals matching : String → TextTest
  is_in not_in : List String → TextTest

pub data MacTest : Type 0 where
  equals matching : String → MacTest
  is_in : List String → MacTest

pub data Condition : Type 0 where
  always : Condition
  text : TextField → TextTest → Condition
  mac : MacTest → Condition
  auth_method : List AuthMethod → Condition
  device_status : List DeviceState → Condition
  time : ℕ → ℕ → List ℕ → Condition

-- the time of a decision in the configured zone: `astimezone(tz)`
pub record Zone : Type 0 where
  pub weekday : ℕ → ℕ
  pub minute : ℕ → ℕ

module _ (u : Unicode) where
  -- `_text`
  pub check_text : String → Result ValueError String
  check_text value =
      let stripped = strip u value in
      if is_empty stripped
      then err not_text
      else if ltb max_text (text_length stripped)
      then err text_too_long
      else ok stripped

  -- `[_text(v, what) for v in value]`
  pub check_texts : List String → Result ValueError (List String)
  unfolding check_text
  check_texts [] = ok []
  check_texts (v ∷ vs) = do t ← check_text v; ts ← check_texts vs; ok (t ∷ ts)

  -- `_text_list`
  pub check_text_list : RawValue → Result ValueError (List String)
  unfolding check_texts
  check_text_list (one s) = err not_a_list
  check_text_list (many []) = err not_a_list
  check_text_list (many (v ∷ vs)) =
      if ltb max_items (length (v ∷ vs)) then err too_many_items else check_texts (v ∷ vs)

  check_one : RawValue → Result ValueError String
  unfolding check_text
  check_one (one s) = check_text s
  check_one (many vs) = err not_text

  -- `_TextCondition._shape`
  pub check_text_test : Op → RawValue → Result ValueError TextTest
  unfolding check_text_list check_one
  check_text_test Op.is_in v = do ts ← check_text_list v; ok (TextTest.is_in ts)
  check_text_test Op.not_in v = do ts ← check_text_list v; ok (TextTest.not_in ts)
  check_text_test Op.equals v = do t ← check_one v; ok (TextTest.equals t)
  check_text_test Op.not_equals v = do t ← check_one v; ok (TextTest.not_equals t)
  check_text_test Op.matches_op v = do t ← check_one v; ok (TextTest.matching t)

  -- `any(c not in "0123456789abcdef:*?-" for c in pattern)`, negated
  pub is_pattern_char : ℕ → Bool
  is_pattern_char c =
      (leb b'0' c && leb c b'9')
      || (leb b'a' c && leb c b'f')
      || any_of (λ d. c == d) (b':' ∷ b'*' ∷ b'?' ∷ b'-' ∷ [])

  -- `pattern.replace("-", ":")`
  pub dashes_to_colons : List ℕ → List ℕ
  dashes_to_colons = map (λ c. if c == b'-' then b':' else c)

  normalize_one : String → Result ValueError String
  unfolding normalize_mac
  normalize_one item = elim (normalize_mac u (some item)) [ none ↦ err bad_mac | some m ↦ ok m ]

  normalize_all : List String → Result ValueError (List String)
  unfolding normalize_one
  normalize_all [] = ok []
  normalize_all (i ∷ is) = do m ← normalize_one i; ms ← normalize_all is; ok (m ∷ ms)

  -- `MacCond._shape`; its `op` is equals, in or matches
  pub check_mac_test : Op → RawValue → Result ValueError MacTest
  unfolding check_text_list check_one normalize_all normalize_one is_pattern_char dashes_to_colons
  check_mac_test Op.matches_op v = do
    t ← check_one v
    let pattern = codes (u.lower t)
    if all_of is_pattern_char pattern
        then ok (MacTest.matching (text_of (dashes_to_colons pattern)))
        else err bad_pattern
  check_mac_test Op.is_in v = do
    ts ← check_text_list v
    ms ← normalize_all ts
    ok (MacTest.is_in ms)
  check_mac_test _ v = do t ← check_one v; m ← normalize_one t; ok (MacTest.equals m)

  unfoldable pub check_condition : RawCondition → Result ValueError Condition
  unfolding check_text_test check_mac_test
  check_condition RawCondition.always = ok Condition.always
  check_condition (RawCondition.text field op v) = do
    t ← check_text_test op v
    ok (Condition.text field t)
  check_condition (RawCondition.mac op v) = do t ← check_mac_test op v; ok (Condition.mac t)
  check_condition (RawCondition.auth_method ms) = ok (Condition.auth_method ms)
  check_condition (RawCondition.device_status ss) = ok (Condition.device_status ss)
  check_condition (RawCondition.time start end days) = ok (Condition.time start end days)

  unfoldable pub check_conditions : List RawCondition → Result ValueError (List Condition)
  unfolding check_condition
  check_conditions [] = ok []
  check_conditions (c ∷ cs) = do d ← check_condition c; ds ← check_conditions cs; ok (d ∷ ds)

  -- `parse_conditions`
  unfoldable pub parse_conditions : List RawCondition → Result ValueError (List Condition)
  unfolding check_conditions
  parse_conditions raw =
      if ltb max_conditions (length raw) then err too_many_conditions else check_conditions raw

  -- `_fold`
  pub fold : Option String → String
  fold value = u.casefold (or_empty value)

  -- `_fold(actual) in {_fold(x) for x in v}`
  pub folded_mem : Option String → List String → Bool
  unfolding fold
  folded_mem actual v = mem_text (fold actual) (map (λ x. fold (some x)) v)

  -- `_test`
  pub test_text : TextTest → Option String → Bool
  unfolding folded_mem fold
  test_text (TextTest.equals v) actual = is_some actual && str_eq (fold actual) (fold (some v))
  test_text (TextTest.not_equals v) actual = not (str_eq (fold actual) (fold (some v)))
  test_text (TextTest.is_in vs) actual = is_some actual && folded_mem actual vs
  test_text (TextTest.not_in vs) actual = not (folded_mem actual vs)
  test_text (TextTest.matching v) actual =
      is_some actual && u.fnmatchcase (fold actual) (fold (some v))

  -- the field that a text condition reads
  pub actual_text : TextField → AuthContext → Option String
  actual_text of_username ctx = or_none ctx.username
  actual_text of_group ctx = ctx.group
  actual_text of_device_type ctx = or_none ctx.device_type
  actual_text of_vendor ctx = or_none ctx.vendor
  actual_text of_nas ctx = or_none ctx.nas_name
  actual_text of_ssid ctx = ctx.ssid

  -- `MacCond.test`
  pub test_mac : MacTest → Option String → Bool
  test_mac t none = false
  test_mac (MacTest.equals v) (some m) = str_eq m v
  test_mac (MacTest.is_in vs) (some m) = mem_text m vs
  test_mac (MacTest.matching p) (some m) = u.fnmatchcase m p

  -- `TimeCond.test`: a window whose end lies before its start goes over midnight
  pub test_time : ℕ → ℕ → List ℕ → ℕ → ℕ → Bool
  test_time start end days weekday now =
      if not (any_of (λ d. d == weekday) days)
      then false
      else if leb start end
      then leb start now && leb now end
      else leb start now || leb now end

  abbrev pub method_index : AuthMethod → ℕ
  method_index eap_tls = 0
  method_index eap_ttls = 1
  method_index peap = 2
  method_index pap = 3
  method_index mab = 4

  abbrev pub state_index : Option DeviceState → ℕ
  state_index none = 0
  state_index (some approved) = 1
  state_index (some pending) = 2
  state_index (some guest) = 3

  -- `condition_matches`
  unfoldable pub condition_matches : Condition → AuthContext → Zone → Bool
  unfolding test_text actual_text test_mac test_time
  condition_matches Condition.always ctx tz = true
  condition_matches (Condition.text field t) ctx tz = test_text t (actual_text field ctx)
  condition_matches (Condition.mac t) ctx tz = test_mac t ctx.mac
  condition_matches (Condition.auth_method ms) ctx tz =
      any_of (λ m. method_index m == method_index ctx.auth_method) ms
  condition_matches (Condition.device_status ss) ctx tz =
      any_of (λ s. state_index (some s) == state_index ctx.device_status) ss
  condition_matches (Condition.time start end days) ctx tz =
      test_time start end days (tz.weekday ctx.now) (tz.minute ctx.now)
