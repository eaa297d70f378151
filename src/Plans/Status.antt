-- ===== src/Plans/Status.antt =====
-- When a subscription is in force (`effective_status`).
use omni_flow.Prelude.{
  ◌≤◌, ◌<◌, ◌≡◌, ◌⊎◌, inl, inr, true, false, Option, none, some, arith, Bool-cases, sym, ◌∙◌, ap,
}
use mathlib.Core.Bool.{true≢false}
use omni_flow.Store.{Moment, Subscription}
use omni_flow.Plans.{effective_status, is_active_status}

-- The period has no end, or ends after `now`.
abbrev pub RunsAt : Option Moment → Moment → Type 0
RunsAt none now = Unit
RunsAt (some end) now = now < end

abbrev pub EndedBy : Option Moment → Moment → Type 0
EndedBy none now = ⊥
EndedBy (some end) now = end ≤ now

RunsAt-or-EndedBy : (end : Option Moment) (now : Moment) → RunsAt end now ⊎ EndedBy end now
RunsAt-or-EndedBy none now = inl tt
RunsAt-or-EndedBy (some end) now = omega arith

pub effective_status-RunsAt :
    (s : Subscription) (now : Moment)
    → is_active_status s.status ≡ true
    → RunsAt s.current_period_end now
    → effective_status s now ≡ s.status
unfolding effective_status
effective_status-RunsAt s now active runs = rw active (ground arith)

pub effective_status-EndedBy :
    (s : Subscription) (now : Moment)
    → EndedBy s.current_period_end now
    → effective_status s now ≡ "expired"
unfolding effective_status
effective_status-EndedBy s now ended = ground arith

pub effective_status_inactive :
    (s : Subscription) (now : Moment)
    → is_active_status s.status ≡ false
    → effective_status s now ≡ "expired"
unfolding effective_status
effective_status_inactive s now other = rw other

-- Either the stored status is active or trial and the period still runs, and it is reported as it
-- is stored; or "expired" is reported, because the stored status is another or the period is over.
pub effective_status_cases :
    (s : Subscription) (now : Moment)
    → ((effective_status s now ≡ s.status)
        × (is_active_status s.status ≡ true)
        × RunsAt s.current_period_end now)
      ⊎ ((effective_status s now ≡ "expired")
          × ((is_active_status s.status ≡ false) ⊎ EndedBy s.current_period_end now))
effective_status_cases s now = elim (Bool-cases (is_active_status s.status)) [
  | inr other ↦ inr (effective_status_inactive s now other, inl other)
  | inl active ↦ elim (RunsAt-or-EndedBy s.current_period_end now) [
    | inl runs ↦ inl (effective_status-RunsAt s now active runs, active, runs)
    | inr ended ↦ inr (effective_status-EndedBy s now ended, inr ended)
  ]
]

EndedBy-later :
    (end : Option Moment) (now later : Moment) → now ≤ later → EndedBy end now → EndedBy end later
EndedBy-later none now later h e = e
EndedBy-later (some end) now later h e = omega arith

-- Once a subscription is reported as expired it stays so, whatever time passes with the row
-- unchanged.
pub expired_stays :
    (s : Subscription) (now later : Moment)
    → now ≤ later
    → effective_status s now ≡ "expired"
    → effective_status s later ≡ "expired"
expired_stays s now later h e = elim (effective_status_cases s now) [
  | inl (same, active, _) ↦ absurd (true≢false (sym active ∙ ap is_active_status (sym same ∙ e)))
  | inr (_, inl other) ↦ effective_status_inactive s later other
  | inr (_, inr ended) ↦
      effective_status-EndedBy s later (EndedBy-later s.current_period_end now later h ended)
]
