-- ===== src/Slugs.antt =====
-- db/base.py: `slugify` and `scoped_id`. `re.sub(r"[^a-z0-9]+", "-", s)` is `dashed false s`.
pub mod Wellformed
pub mod Scoped
use Prim.Native.Char.{code}
use Prim.Native.String.{String, ◌++◌ as str_append}
use text.Mathlib.Text.{starts_with}
use omni_flow.Prelude.{
  ℕ, zero, suc, Bool, true, false, ◌==◌, ◌&&◌, ◌||◌, string_eq, not, if◌then◌else◌, leb, nat_beq,
}
use omni_flow.TextOps.{TextOps}
use omni_flow.Store.{default_tenant_id}

unfoldable pub scoped_id : String → String → String
scoped_id item tenant =
    if tenant == default_tenant_id || starts_with item (str_append tenant ":")
    then item
    else str_append tenant (str_append ":" item)

-- `[a-z0-9]`
abbrev pub is_slug_code : ℕ → Bool
is_slug_code c = leb b'a' c && leb c b'z' || leb b'0' c && leb c b'9'

abbrev pub is_dash : ℕ → Bool
is_dash c = nat_beq c b'-'

-- Whether the run of other characters before has its dash already.
unfoldable pub dashed : Bool → String → String
dashed in_run String.[] = String.[]
dashed in_run (String.◌∷◌ c s) =
    let kept = String.◌∷◌ c (dashed false s) in
    let rest = dashed true s in
    if is_slug_code (code c) then kept else if in_run then rest else String.◌∷◌ "-" rest

-- `strip("-")`
unfoldable pub strip_front : String → String
strip_front String.[] = String.[]
strip_front (String.◌∷◌ c s) = if is_dash (code c) then strip_front s else String.◌∷◌ c s

unfoldable pub strip_back : String → String
strip_back String.[] = String.[]
strip_back (String.◌∷◌ c s) =
    let rest = strip_back s in
    if is_dash (code c) && rest == "" then String.[] else String.◌∷◌ c rest

-- `s[:n]`
unfoldable pub first_chars : ℕ → String → String
first_chars n String.[] = String.[]
first_chars zero (String.◌∷◌ c s) = String.[]
first_chars (suc n) (String.◌∷◌ c s) = String.◌∷◌ c (first_chars n s)

unfoldable pub slugify : TextOps → String → String
unfolding dashed strip_front strip_back first_chars
slugify ops value =
    let slug = first_chars 48 (strip_back (strip_front (dashed false (ops.lower value)))) in
    if slug == "" then "tenant" else slug
