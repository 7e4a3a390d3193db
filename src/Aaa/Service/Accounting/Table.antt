-- ===== src/Aaa/Service/Accounting/Table.antt =====
-- The session table of naco/aaa/service.py as a map from the NAS and the session id.
use naco.Base.{
  Bool-cases, List, Option, String, [], ap, arith, clip, eq_iff, eq_refl, if◌then◌else◌, inl, inr,
  is_empty, none, or_else, refl, some, str_eq, subst, sym, true, ℕ, ◌&&◌, ◌++◌, ◌||◌, ◌∙◌, ◌∷◌, ◌≡◌,
}
use naco.Models.{AuthLog, RadiusSession}
use naco.Aaa.Service.Accounting.{
  Report, Status, accounting, apply_context, apply_counters, apply_report, delete_where,
  find_session, handle_status, is_session, new_session, replace_session, update_session, updated,
  upsert,
}

find-delete_session :
    (table : List RadiusSession) (n i nas_ip sid : String)
    → find_session (delete_where (is_session n i) table) nas_ip sid
      ≡ (if str_eq n nas_ip && str_eq i sid then none else find_session table nas_ip sid)
unfolding delete_where find_session is_session
find-delete_session [] n i nas_ip sid = ground arith
find-delete_session (s ∷ table) n i nas_ip sid = ground (
  arith,
  eq_iff s.nas_ip n,
  eq_iff s.acct_session_id i,
  eq_iff n nas_ip,
  eq_iff i sid,
  eq_iff s.nas_ip nas_ip,
  eq_iff s.acct_session_id sid,
  find-delete_session table n i nas_ip sid,
)

find-delete_nas :
    (table : List RadiusSession) (n nas_ip sid : String)
    → find_session (delete_where (λ s. str_eq s.nas_ip n) table) nas_ip sid
      ≡ (if str_eq n nas_ip then none else find_session table nas_ip sid)
unfolding delete_where find_session is_session
find-delete_nas [] n nas_ip sid = ground arith
find-delete_nas (s ∷ table) n nas_ip sid = ground (
  arith,
  eq_iff s.nas_ip n,
  eq_iff n nas_ip,
  eq_iff s.nas_ip nas_ip,
  find-delete_nas table n nas_ip sid,
)

find-append_one :
    (table : List RadiusSession) (y : RadiusSession) (n i nas_ip sid : String)
    → is_session n i y ≡ true
    → find_session table n i ≡ none
    → find_session (table ++ y ∷ []) nas_ip sid
      ≡ (if str_eq n nas_ip && str_eq i sid then some y else find_session table nas_ip sid)
unfolding find_session is_session
find-append_one [] y n i nas_ip sid k e = ground (
  arith,
  eq_iff y.nas_ip n,
  eq_iff y.acct_session_id i,
  eq_iff n nas_ip,
  eq_iff i sid,
  eq_iff y.nas_ip nas_ip,
  eq_iff y.acct_session_id sid,
)
find-append_one (s ∷ table) y n i nas_ip sid k e = ground (
  arith,
  eq_iff s.nas_ip n,
  eq_iff s.acct_session_id i,
  eq_iff n nas_ip,
  eq_iff i sid,
  eq_iff s.nas_ip nas_ip,
  eq_iff s.acct_session_id sid,
  find-append_one table y n i nas_ip sid k,
)

find-replace_session :
    (table : List RadiusSession) (y s : RadiusSession) (n i nas_ip sid : String)
    → is_session n i y ≡ true
    → find_session table n i ≡ some s
    → find_session (replace_session n i y table) nas_ip sid
      ≡ (if str_eq n nas_ip && str_eq i sid then some y else find_session table nas_ip sid)
unfolding find_session is_session replace_session
find-replace_session [] y z n i nas_ip sid k e = ground arith
find-replace_session (s ∷ table) y z n i nas_ip sid k e = ground (
  arith,
  eq_iff y.nas_ip n,
  eq_iff y.acct_session_id i,
  eq_iff s.nas_ip n,
  eq_iff s.acct_session_id i,
  eq_iff n nas_ip,
  eq_iff i sid,
  eq_iff s.nas_ip nas_ip,
  eq_iff s.acct_session_id sid,
  eq_iff y.nas_ip nas_ip,
  eq_iff y.acct_session_id sid,
  find-replace_session table y z n i nas_ip sid k,
)

find_session-is_session :
    (table : List RadiusSession) (n i : String) (s : RadiusSession)
    → find_session table n i ≡ some s
    → is_session n i s ≡ true
unfolding find_session
find_session-is_session [] n i s h = ground arith
find_session-is_session (x ∷ table) n i s h = elim (Bool-cases (is_session n i x)) [
  | inl e ↦
      subst (λ z. is_session n i z ≡ true)
        (ap (λ o. or_else o x) {x = some x} {y = some s}
          (sym (ap (λ b. if b then some x else find_session table n i) e) ∙ h))
        e
  | inr e ↦
      find_session-is_session table n i s
        (sym (ap (λ b. if b then some x else find_session table n i) e) ∙ h)
]

is_session-apply_context :
    (r : Report) (name : String) (o : Option AuthLog) (s : RadiusSession) (n i : String)
    → is_session n i (apply_context r name o s) ≡ is_session n i s
unfolding apply_context is_session
is_session-apply_context r name none s n i = refl
is_session-apply_context r name (some c) s n i = refl

module _ (canonical : String → String) (latest_accept : String → String → Option AuthLog)
    (r : Report) (now : ℕ) where
  is_session-updated :
      (s : RadiusSession) (n i : String)
      → is_session n i (updated canonical latest_accept r now s) ≡ is_session n i s
  unfolding updated apply_counters apply_context apply_report is_session
  is_session-updated s n i =
      let s1 = apply_report r s in
      let name = canonical (clip 64 r.user_name) in
      is_session-apply_context r name (latest_accept s1.mac_address name) s1 n i

  is_session-new_session : is_session r.nas_ip (clip 64 r.session_id) (new_session r now) ≡ true
  unfolding is_session new_session
  is_session-new_session = rw (eq_refl r.nas_ip, eq_refl (clip 64 r.session_id)) refl

  find-update_session :
      (table : List RadiusSession) (nas_ip sid : String)
      → find_session (update_session canonical latest_accept r now table) nas_ip sid ≡ (
          if str_eq r.nas_ip nas_ip && str_eq (clip 64 r.session_id) sid
          then some (
              updated canonical latest_accept r now
                (or_else (find_session table r.nas_ip (clip 64 r.session_id)) (new_session r now)))
          else find_session table nas_ip sid)
  unfolding update_session
  find-update_session table nas_ip sid =
      go (find_session table r.nas_ip (clip 64 r.session_id)) refl
    where
      go :
          (o : Option RadiusSession)
          → find_session table r.nas_ip (clip 64 r.session_id) ≡ o
          → find_session (upsert canonical latest_accept r now table o) nas_ip sid ≡ (
              if str_eq r.nas_ip nas_ip && str_eq (clip 64 r.session_id) sid
              then some (updated canonical latest_accept r now (or_else o (new_session r now)))
              else find_session table nas_ip sid)
      go none e =
          find-append_one table (updated canonical latest_accept r now (new_session r now)) r.nas_ip
            (clip 64 r.session_id) nas_ip sid
            (is_session-updated (new_session r now) r.nas_ip (clip 64 r.session_id)
              ∙ is_session-new_session)
            e
      go (some s) e =
          find-replace_session table (updated canonical latest_accept r now s) s r.nas_ip
            (clip 64 r.session_id) nas_ip sid
            (is_session-updated s r.nas_ip (clip 64 r.session_id)
              ∙ find_session-is_session table r.nas_ip (clip 64 r.session_id) s e)
            e

  -- the row of a NAS and session id after a report, from the rows before it
  pub row_after :
      Option Status
      → (String → String → Option RadiusSession)
      → String
      → String
      → Option RadiusSession
  row_after none look n i = look n i
  row_after (some Status.accounting_on) look n i =
      if is_empty r.nas_ip then look n i else if str_eq r.nas_ip n then none else look n i
  row_after (some Status.accounting_off) look n i =
      if is_empty r.nas_ip then look n i else if str_eq r.nas_ip n then none else look n i
  row_after (some Status.stop) look n i =
      if is_empty r.nas_ip || is_empty r.session_id
      then look n i
      else if str_eq r.nas_ip n && str_eq (clip 64 r.session_id) i
      then none
      else look n i
  row_after (some _) look n i =
      if is_empty r.nas_ip || is_empty r.session_id
      then look n i
      else if str_eq r.nas_ip n && str_eq (clip 64 r.session_id) i
      then some (
          updated canonical latest_accept r now
            (or_else (look r.nas_ip (clip 64 r.session_id)) (new_session r now)))
      else look n i

  -- The session table is a map from NAS and session id, and `accounting` changes it as one. For any
  -- table and report: without a known status or a NAS, and without a session id where one is
  -- needed, nothing changes; accounting-on and accounting-off forget every session of that NAS and
  -- no other; stop forgets that session alone; start and interim-update leave, under that NAS and
  -- session id alone, the row that was there, or a new one, with the report's values.
  pub find-accounting :
      (status : Option Status) (table : List RadiusSession) (n i : String)
      → find_session (accounting canonical latest_accept status r now table) n i
        ≡ row_after status (find_session table) n i
  unfolding accounting handle_status row_after
  find-accounting none table n i = refl
  find-accounting (some Status.accounting_on) table n i =
      ground (arith, find-delete_nas table r.nas_ip n i)
  find-accounting (some Status.accounting_off) table n i =
      ground (arith, find-delete_nas table r.nas_ip n i)
  find-accounting (some Status.stop) table n i =
      ground (arith, find-delete_session table r.nas_ip (clip 64 r.session_id) n i)
  find-accounting (some Status.start) table n i = ground (arith, find-update_session table n i)
  find-accounting (some Status.interim_update) table n i =
      ground (arith, find-update_session table n i)
