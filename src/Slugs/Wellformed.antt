-- ===== src/Slugs/Wellformed.antt =====
-- What a slug looks like.
use Prim.Native.Char.{code}
use Prim.Native.String.{String}
use omni_flow.Prelude.{
  ℕ, zero, suc, ◌≡◌, refl, arith, Bool, true, false, ◌≤◌, ◌==◌, ◌&&◌, ◌||◌, string_eq, Bool-cases,
  inl, inr,
}
use omni_flow.TextOps.{TextOps}
use omni_flow.Slugs.{is_slug_code, is_dash, dashed, strip_front, strip_back, first_chars, slugify}

-- Every character is a letter, a digit or a dash.
abbrev pub IsPlain : String → Type 0
IsPlain String.[] = Unit
IsPlain (String.◌∷◌ c s) = (is_slug_code (code c) || is_dash (code c) ≡ true) × IsPlain s

abbrev pub count_chars : String → ℕ
count_chars String.[] = 0
count_chars (String.◌∷◌ c s) = suc (count_chars s)

abbrev pub starts_dashed : String → Bool
starts_dashed String.[] = false
starts_dashed (String.◌∷◌ c s) = is_dash (code c)

dashed-IsPlain : (b : Bool) (s : String) → IsPlain (dashed b s)
unfolding dashed
dashed-IsPlain b String.[] = tt
dashed-IsPlain b (String.◌∷◌ c s) = ground (arith, dashed-IsPlain false s, dashed-IsPlain true s)

strip_front-IsPlain : (s : String) → IsPlain s → IsPlain (strip_front s)
unfolding strip_front
strip_front-IsPlain String.[] p = tt
strip_front-IsPlain (String.◌∷◌ c s) p = ground (arith, strip_front-IsPlain s)

strip_back-IsPlain : (s : String) → IsPlain s → IsPlain (strip_back s)
unfolding strip_back
strip_back-IsPlain String.[] p = tt
strip_back-IsPlain (String.◌∷◌ c s) p = elim (Bool-cases (is_dash (code c) && strip_back s == "")) [
  | inl gone ↦ rw gone tt
  | inr stays ↦ rw stays (p.0, strip_back-IsPlain s p.1)
]

first_chars-IsPlain : (n : ℕ) (s : String) → IsPlain s → IsPlain (first_chars n s)
unfolding first_chars
first_chars-IsPlain n String.[] p = tt
first_chars-IsPlain zero (String.◌∷◌ c s) p = tt
first_chars-IsPlain (suc n) (String.◌∷◌ c s) p = (p.0, first_chars-IsPlain n s p.1)

first_chars-le : (n : ℕ) (s : String) → count_chars (first_chars n s) ≤ n
unfolding first_chars
first_chars-le n String.[] = omega arith
first_chars-le zero (String.◌∷◌ c s) = omega arith
first_chars-le (suc n) (String.◌∷◌ c s) = omega (arith, first_chars-le n s)

strip_front_dash : (s : String) → starts_dashed (strip_front s) ≡ false
unfolding strip_front
strip_front_dash String.[] = refl
strip_front_dash (String.◌∷◌ c s) = ground (arith, strip_front_dash s)

strip_back_dash : (s : String) → starts_dashed s ≡ false → starts_dashed (strip_back s) ≡ false
unfolding strip_back
strip_back_dash String.[] h = refl
strip_back_dash (String.◌∷◌ c s) h = ground arith

first_chars_dash :
    (n : ℕ) (s : String) → starts_dashed s ≡ false → starts_dashed (first_chars n s) ≡ false
unfolding first_chars
first_chars_dash n String.[] h = refl
first_chars_dash zero (String.◌∷◌ c s) h = refl
first_chars_dash (suc n) (String.◌∷◌ c s) h = h

-- Whatever the name of a workspace, its slug is not empty, has at most 48 characters, each of them
-- a letter from a to z, a digit or a dash, and does not begin with a dash.
pub slugify_lem :
    (ops : TextOps) (value : String)
    → let slug = slugify ops value in
      ((slug == "") ≡ false) × (count_chars slug ≤ 48) × IsPlain slug × (starts_dashed slug ≡ false)
unfolding slugify
slugify_lem ops value =
    let inner = strip_front (dashed false (ops.lower value)) in
    let cut = first_chars 48 (strip_back inner) in
    elim (Bool-cases (cut == "")) [
      | inl empty ↦
          rw empty (refl, omega arith, (refl, (refl, (refl, (refl, (refl, (refl, tt)))))), refl)
      | inr some_left ↦ rw some_left (
        some_left,
        first_chars-le 48 (strip_back inner),
        first_chars-IsPlain 48 (strip_back inner) (
            strip_back-IsPlain inner (
              strip_front-IsPlain (dashed false (ops.lower value))
                (dashed-IsPlain false (ops.lower value)))),
        first_chars_dash 48 (strip_back inner)
            (strip_back_dash inner (strip_front_dash (dashed false (ops.lower value)))),
      )
    ]
