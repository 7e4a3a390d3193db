-- ===== src/Radius/Reevaluate/Counts.antt =====
-- What `reevaluate` of naco/radius/reevaluate.py counts.
use naco.Base.{
  Bool, List, Option, Result, String, Unicode, [], ap, arith, err, false, if◌then◌else◌, keep,
  length, none, ok, refl, some, suc, true, ℕ, ◌+◌, ◌∙◌, ◌∷◌, ◌≡◌, ◌≤◌,
}
use naco.Models.{NasClient, RadiusSession}
use naco.Policy.Context.{AuthMethod, Fingerprint}
use naco.Policy.Conditions.{Zone}
use naco.Policy.Engine.{CompiledPolicy, PolicyLoadError, load_policies}
use naco.Radius.Clients.{Addresses}
use naco.Radius.Coa.Exchange.{CoaResult, Outcome}
use naco.Radius.Reevaluate.{
  LiveTables, LiveWorld, ReevalSummary, after_load, checkable, count_result, disconnect_all,
  live_sessions, load_world, no_summary, reevaluate, review, review_one,
}

is_acked : CoaResult → Bool
is_acked r = elim r.outcome [ Outcome.ack ↦ true | _ ↦ false ]

length-if {ℓ} :
    {A : Type ℓ} (b : Bool) (x : A) (xs : List A)
    → (if b then suc (length xs) else length xs) ≡ length (if b then x ∷ xs else xs)
length-if true x xs = refl
length-if false x xs = refl

module _ (send : RadiusSession → NasClient → CoaResult) where
  -- the requests that the NAS acknowledged
  pub acked : List (RadiusSession × NasClient) → List (RadiusSession × NasClient)
  unfolding is_acked
  acked targets = keep (λ (t : RadiusSession × NasClient). is_acked (send t.0 t.1)) targets

  -- one answer counts once
  count_result_lem :
      (r : ReevalSummary) (c : CoaResult) (n : ℕ)
      → ((count_result r c.outcome).disconnected + n
          ≡ r.disconnected + (if is_acked c then suc n else n))
        × ((count_result r c.outcome).disconnected + (count_result r c.outcome).failed
            ≡ r.disconnected + r.failed + 1)
        × ((count_result r c.outcome).checked ≡ r.checked)
        × ((count_result r c.outcome).changed ≡ r.changed)
        × ((count_result r c.outcome).reasons ≡ r.reasons)
  unfolding count_result is_acked
  count_result_lem r c n = by_outcome c.outcome
    where
      by_outcome :
          (o : Outcome)
          → ((count_result r o).disconnected + n
              ≡ r.disconnected + (if elim o [ Outcome.ack ↦ true | _ ↦ false ] then suc n else n))
            × ((count_result r o).disconnected + (count_result r o).failed
                ≡ r.disconnected + r.failed + 1)
            × ((count_result r o).checked ≡ r.checked)
            × ((count_result r o).changed ≡ r.changed)
            × ((count_result r o).reasons ≡ r.reasons)
      by_outcome Outcome.ack = (omega arith, omega arith, refl, refl, refl)
      by_outcome Outcome.nak = (omega arith, omega arith, refl, refl, refl)
      by_outcome Outcome.timeout = (omega arith, omega arith, refl, refl, refl)
      by_outcome Outcome.error = (omega arith, omega arith, refl, refl, refl)

  disconnect_all_lem :
      (targets : List (RadiusSession × NasClient)) (r : ReevalSummary)
      → ((disconnect_all send targets r).disconnected ≡ r.disconnected + length (acked targets))
        × ((disconnect_all send targets r).disconnected + (disconnect_all send targets r).failed
            ≡ r.disconnected + r.failed + length targets)
        × ((disconnect_all send targets r).checked ≡ r.checked)
        × ((disconnect_all send targets r).changed ≡ r.changed)
        × ((disconnect_all send targets r).reasons ≡ r.reasons)
  unfolding disconnect_all acked is_acked
  disconnect_all_lem [] r = (omega arith, omega arith, refl, refl, refl)
  disconnect_all_lem ((s, nas) ∷ targets) r =
      let (d, f, c, g, e) = disconnect_all_lem targets (count_result r ((send s nas).outcome)) in
      let (d1, f1, c1, g1, e1) = count_result_lem r (send s nas) (length (acked targets)) in
      (
        d
            ∙ (d1
                ∙ ap (λ n. r.disconnected + n)
                    (length-if (is_acked (send s nas)) (s, nas) (acked targets))),
        omega (arith, f, f1),
        c ∙ c1,
        g ∙ g1,
        e ∙ e1,
      )

module _ (u : Unicode) (tz : Zone) (f : Fingerprint) (a : Addresses) (world : LiveWorld)
    (policies : List CompiledPolicy) (now : ℕ) where
  review-counts :
      (sessions : List RadiusSession)
      → (length (review u tz f a world policies now sessions).1
          ≤ (review u tz f a world policies now sessions).0)
        × ((review u tz f a world policies now sessions).0 ≤ length sessions)
  unfolding review
  review-counts [] = (omega arith, omega arith)
  review-counts (s ∷ sessions) =
      one (checkable u tz f a world policies now s) (review u tz f a world policies now sessions)
        (review-counts sessions)
    where
      one :
          (o : Option (AuthMethod × NasClient)) (r : ℕ × List (RadiusSession × NasClient))
          → (length r.1 ≤ r.0) × (r.0 ≤ length sessions)
          → (length (review_one u tz f a world policies now s o r).1
              ≤ (review_one u tz f a world policies now s o r).0)
            × ((review_one u tz f a world policies now s o r).0 ≤ suc (length sessions))
      one none r h = unfold review_one in omega (arith, h.0, h.1)
      one (some (m, c)) r h = unfold review_one in ground (arith, h.0, h.1)

-- The summary adds up: as many sessions are checked as are stored with a digest, at most; the changed
-- ones are those sent a Disconnect-Request, all of them checked; each counts as disconnected if its
-- NAS acknowledged and as failed if not; and the reasons are the given ones.
pub reevaluate-counts :
    (u : Unicode) (tz : Zone) (f : Fingerprint) (a : Addresses)
    (send : RadiusSession → NasClient → CoaResult) (db : LiveTables) (now : ℕ)
    (reasons : List String)
    → let (summary, targets) = reevaluate u tz f a send db now reasons in
      (summary.checked ≤ length (live_sessions db))
      × (summary.changed ≤ summary.checked)
      × (summary.changed ≡ length targets)
      × (summary.disconnected ≡ length (acked send targets))
      × (summary.disconnected + summary.failed ≡ summary.changed)
      × (summary.reasons ≡ reasons)
unfolding reevaluate
reevaluate-counts u tz f a send db now reasons = loaded (load_policies u db.policies)
  where
    loaded :
        (r : Result PolicyLoadError (List CompiledPolicy))
        → let (summary, targets) = after_load u tz f a send db now reasons r in
          (summary.checked ≤ length (live_sessions db))
          × (summary.changed ≤ summary.checked)
          × (summary.changed ≡ length targets)
          × (summary.disconnected ≡ length (acked send targets))
          × (summary.disconnected + summary.failed ≡ summary.changed)
          × (summary.reasons ≡ reasons)
    loaded (err e) = unfold after_load acked in (omega arith, omega arith, refl, refl, refl, refl)
    loaded (ok policies) =
        let (few, within) =
          review-counts u tz f a (load_world db (live_sessions db) now) policies now
            (live_sessions db) in
        let targets =
          (review u tz f a (load_world db (live_sessions db) now) policies now
            (live_sessions db)).1 in
        let checked =
          (review u tz f a (load_world db (live_sessions db) now) policies now
            (live_sessions db)).0 in
        let (d, g, c, h, e) =
          disconnect_all_lem send targets
            (record (no_summary reasons) { checked = checked; changed = length targets }) in
        unfold after_load in
        (
          omega (arith, c, within),
          omega (arith, c, h, few),
          h,
          omega (arith, d),
          omega (arith, g, h),
          e,
        )
