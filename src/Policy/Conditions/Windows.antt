-- ===== src/Policy/Conditions/Windows.antt =====
-- naco/policy/conditions.py: what the tests guarantee.
use naco.Base.{
  Bool-cases, List, Unicode, any_of, arith, inl, inr, true, ℕ, ◌<◌, ◌==◌, ◌↔◌, ◌≡◌, ◌≤◌,
}
use naco.Policy.Conditions.{test_time}

-- A window whose end lies before its start covers what is not strictly between end and start; any
-- other covers what lies from its start to its end. Both count on the days of the condition only.
pub test_time_iff :
    (u : Unicode) (start end : ℕ) (days : List ℕ) (weekday now : ℕ)
    → (test_time u start end days weekday now ≡ true) ↔ (
        (any_of (λ d. d == weekday) days ≡ true)
        × ((start ≤ end → (start ≤ now) × (now ≤ end))
            × (end < start → ¬ ((end < now) × (now < start)))))
unfolding test_time
test_time_iff u start end days weekday now = elim (Bool-cases (any_of (λ d. d == weekday) days)) [
  | inl on ↦ rw on (ground arith)
  | inr off ↦ rw off (ground arith)
]
