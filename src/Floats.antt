-- ===== src/Floats.antt =====
-- Python's floats, as far as app/plans.py uses them: the quotient of two ints, the quotient of two
-- floats and `timedelta * float`. IEEE rounding is not fixed here; what is assumed of it is that
-- the quotient of a smaller rate by a larger one is at most 1 after rounding, so that it scales no
-- length of time up.
use omni_flow.Prelude.{ℕ, ◌*◌, ◌≤◌, ◌<◌}

pub record Floats : Type 1 where
  pub Float : Type 0
  pub true_div : ℕ → ℕ → Float
  pub float_div : Float → Float → Float
  pub scale : ℕ → Float → ℕ
  pub scale-le :
      (t a b c d : ℕ)
      → 0 < b
      → 0 < c
      → 0 < d
      → a * d ≤ c * b
      → scale t (float_div (true_div a b) (true_div c d)) ≤ t
