-- ===== src/Api/Totp.antt =====
-- naco/api/totp.py: one-time codes with replay protection. The code of a step (pyotp) and
-- `str.isdigit` are parameters. Times are in microseconds, and the clock is past the first half
-- minute of 1970.
pub mod Replay
use Prim.Native.Char.{code}
use naco.Base.{
  Bool, List, Option, Result, String, Unicode, [], all_of, codes, drop, err, false, if◌then◌else◌,
  leb, ltb, none, not, ok, some, str_eq, strip, text_length, ℕ, ◌&&◌, ◌*◌, ◌+◌, ◌-◌, ◌/◌, ◌==◌,
  ◌||◌, ◌∷◌,
}

abbrev pub second : ℕ
second = 1000000

abbrev pub step_seconds : ℕ
step_seconds = 30

-- what Python raises: `hmac.compare_digest` takes ASCII texts only
pub data TypeError : Type 0 where
  not_ascii : TypeError

-- `current_step`
pub current_step : ℕ → ℕ
current_step now = now / (step_seconds * second)

-- `s.replace(" ", "")`
pub drop_spaces : String → String
drop_spaces String.[] = String.[]
drop_spaces (String.◌∷◌ c s) =
    let rest = drop_spaces s in if code c == 0x20 then rest else String.◌∷◌ c rest

pub is_ascii : String → Bool
is_ascii s = all_of (λ c. ltb c 128) (codes s)

-- `hmac.compare_digest` of two texts, the first in ASCII
pub compare_digest : String → String → Result TypeError Bool
unfolding is_ascii
compare_digest expected given = if is_ascii given then ok (str_eq expected given) else err not_ascii

-- `last_step is not None and candidate <= last_step`
pub is_spent : Option ℕ → ℕ → Bool
is_spent none candidate = false
is_spent (some last) candidate = leb candidate last

module _ (otp : ℕ → String) (last : Option ℕ) (given : String) where
  -- the loop over the candidates
  pub first_match : List ℕ → Result TypeError (Option ℕ)
  unfolding is_spent compare_digest
  first_match [] = ok none
  first_match (c ∷ candidates) =
      let rest = first_match candidates in
      if is_spent last c then rest else elim (compare_digest (otp c) given) [
        | err e ↦ err e
        | ok same ↦ if same then ok (some c) else rest
      ]

module _ (u : Unicode) (isdigit : String → Bool) (otp : String → ℕ → String) where
  -- `code.strip().replace(" ", "")`
  pub clean_code : String → String
  unfolding drop_spaces
  clean_code typed = drop_spaces (strip u typed)

  -- `match`
  unfoldable pub match : String → String → Option ℕ → ℕ → Result TypeError (Option ℕ)
  unfolding clean_code current_step first_match
  match secret typed last now =
      let step = current_step now in
      if not (text_length (clean_code typed) == 6) || not (isdigit (clean_code typed))
      then ok none
      else first_match (otp secret) last (clean_code typed) ((step - 1) ∷ step ∷ (step + 1) ∷ [])

  -- `looks_like_recovery_code`
  unfoldable pub looks_like_recovery_code : String → Bool
  looks_like_recovery_code typed =
      let given = u.lower (strip u typed) in text_length given == 9 && fifth_is_dash given
    where
      fifth_is_dash : String → Bool
      fifth_is_dash s = elim (drop 4 (codes s)) [ [] ↦ false | c ∷ r ↦ c == b'-' ]
