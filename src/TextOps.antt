-- ===== src/TextOps.antt =====
-- Methods of Python's `str` that go by the Unicode tables, `str(v)`, `str(n)` and SQLite's `lower`:
-- what the code relies on is that a text that is stripped, or stripped and lowered, stays as it is
-- when this is done again, that SQLite's `lower`, which goes by ASCII, leaves a lowered text alone,
-- and that two numbers are not written alike.
use omni_flow.Prelude.{ℕ, String, ◌≡◌}
use omni_flow.Json.{Json, text}

pub record TextOps : Type 0 where
  pub lower : String → String
  pub strip : String → String
  pub show : Json → String
  pub join_words : String → String
  pub sql_lower : String → String
  pub decimal : ℕ → String
  pub strip_twice : (s : String) → strip (strip s) ≡ strip s
  pub normal_twice : (s : String) → lower (strip (lower (strip s))) ≡ lower (strip s)
  pub show-text : (s : String) → show (text s) ≡ s
  pub sql_lower-lower : (s : String) → sql_lower (lower s) ≡ lower s
  pub decimal_inj : (m n : ℕ) → decimal m ≡ decimal n → m ≡ n
