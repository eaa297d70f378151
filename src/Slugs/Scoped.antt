-- ===== src/Slugs/Scoped.antt =====
-- Ids that callers choose, in different workspaces.
use Prim.Native.Char.{code}
use Prim.Native.String.{String, ◌++◌ as str_append}
use Prim.Native.String.append
use text.Mathlib.Text.{starts_with}
use text.Mathlib.TextEquality.{starts_with_iff}
use text.Mathlib.TextLemmas.{append_assoc}
use omni_flow.Prelude.{
  ◌≡◌, refl, sym, ap, ◌∙◌, inl, inr, Bool, false, ◌==◌, string_eq, ◌||◌, if◌then◌else◌, nat_beq,
  Bool-cases,
}
use omni_flow.Store.{default_tenant_id}
use omni_flow.Slugs.{scoped_id}

-- Whether some character is a colon.
abbrev pub has_colon : String → Bool
has_colon String.[] = false
has_colon (String.◌∷◌ c s) = nat_beq (code c) 58 || has_colon s

abbrev before_colon : String → String
before_colon String.[] = String.[]
before_colon (String.◌∷◌ c s) =
    let rest = before_colon s in if nat_beq (code c) 58 then String.[] else String.◌∷◌ c rest

before_colon_lem :
    (t rest : String) → has_colon t ≡ false → before_colon (str_append t (str_append ":" rest)) ≡ t
before_colon_lem String.[] rest h =
    rw (append.nil (str_append ":" rest)) (rw (append.cons ":" "" rest) refl)
before_colon_lem (String.◌∷◌ c s) rest h =
    rw (append.cons c s (str_append ":" rest)) (elim (Bool-cases (nat_beq (code c) 58)) [
      | inl colon ↦ let e = rw colon at h in cc e
      | inr other ↦ rw other (ap (String.◌∷◌ c) (before_colon_lem s rest (rw other at h)))
    ])

-- The id of any workspace but the shared one starts with the workspace.
scoped_id-start :
    (item t : String)
    → (t == default_tenant_id) ≡ false
    → (rest : String) × (scoped_id item t ≡ str_append t (str_append ":" rest))
unfolding scoped_id
scoped_id-start item t own = elim (Bool-cases (starts_with item (str_append t ":"))) [
  | inr bare ↦ (item, rw (own, scoped_id) (rw bare refl))
  | inl scoped ↦
      let (rest, whole) = (starts_with_iff item (str_append t ":")).0 scoped in
      (rest, rw (own, scoped_id) (rw scoped (sym whole ∙ append_assoc t ":" rest)))
]

-- Whatever ids callers choose in two workspaces whose names have no colon, neither of them the shared
-- one: if the ids that are stored are the same, so are the workspaces.
pub scoped_id-apart :
    (a b s t : String)
    → (s == default_tenant_id) ≡ false
    → (t == default_tenant_id) ≡ false
    → has_colon s ≡ false
    → has_colon t ≡ false
    → scoped_id a s ≡ scoped_id b t
    → s ≡ t
scoped_id-apart a b s t own own' plain plain' same =
    let (rest, first) = scoped_id-start a s own in
    let (rest', second) = scoped_id-start b t own' in
    sym (before_colon_lem s rest plain)
    ∙ ap before_colon (sym first ∙ same ∙ second)
    ∙ before_colon_lem t rest' plain'
