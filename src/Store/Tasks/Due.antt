-- ===== src/Store/Tasks/Due.antt =====
-- The posts that a poll picks up.
use omni_flow.Prelude.{◌≤◌, ◌≡◌, some}
use omni_flow.Store.{Moment, TaskRow}

-- The row has a time, which is no later than the given one.
abbrev pub IsTimed : Moment → TaskRow → Type 0
IsTimed now r = (t : Moment) × (r.scheduled_at ≡ some t) × (t ≤ now)
