-- ===== src/Json.antt =====
-- The values that arrive from outside as JSON, as far as the code tells them apart; `other` is a
-- number that is no integer, or a list or object that the code does not read.
pub mod Doc
use omni_flow.Prelude.{
  ℕ, String, Bool, true, false, Option, none, some, ◌==◌, string_eq, nat_beq, not,
}
use omni_flow.Prelude.Int.{ℤ, pos, int_is}

pub data Json : Type 0 where
  null : Json
  flag : Bool → Json
  num : ℤ → Json
  text : String → Json
  other : Json

-- `isinstance(v, str)`, with the text.
abbrev pub as_text : Json → Option String
as_text (text s) = some s
as_text _ = none

-- `v == "…"`
abbrev pub is_text : Json → String → Bool
is_text (text s) t = s == t
is_text _ t = false

-- `v == n` for an int: `True == 1` and `False == 0` in Python.
abbrev pub is_int : Json → ℕ → Bool
is_int (num i) n = int_is i n
is_int (flag true) n = nat_beq 1 n
is_int (flag false) n = nat_beq 0 n
is_int _ n = false

-- `int(v) if isinstance(v, int) else 0`: a `bool` is an `int`.
abbrev pub int_or_zero : Json → ℤ
int_or_zero (num i) = i
int_or_zero (flag true) = pos 1
int_or_zero _ = pos 0

-- The truth value of `v`, for an `other` that is not empty.
abbrev pub truthy : Json → Bool
truthy null = false
truthy (flag b) = b
truthy (num i) = not (int_is i 0)
truthy (text s) = not (s == "")
truthy other = true
