-- ===== src/Security/Tokens.antt =====
-- What a signature on a token guarantees.
use omni_flow.Prelude.{
  ℕ, ◌+◌, ◌≤◌, ◌≡◌, refl, sym, ap, ◌∙◌, inl, inr, String, some, List, [], ◌∷◌, arith, ◌==◌, ==_iff,
  ==_refl, string_eq, ltb, nat_beq, Bool-cases, Option-cases,
}
use Prim.Native.String.{◌++◌ as str_append}
use omni_flow.Store.{Moment, seconds}
use omni_flow.Security.{
  Claims, TokenCodec, RoundTrips, valid, whole_second, stamped, sign_payload, verify_parts,
  verify_payload,
}

parts_verified :
    (codec : TokenCodec) (later : Moment) (c : Claims) (end : Moment)
    → codec.decode (codec.encode c) ≡ some c
    → c.exp ≡ some end
    → later ≤ end
    → verify_parts codec later (codec.encode c ∷ codec.signature (codec.encode c) ∷ []) ≡ valid c
unfolding verify_parts
parts_verified codec later c end read at soon =
    rw (==_refl (codec.signature (codec.encode c))) (rw read (rw at (ground arith)))

-- A token is accepted, with the claims that were signed, until its lifetime is over.
pub signed_verified :
    (codec : TokenCodec) (now later : Moment) (ttl : ℕ) (payload : Claims) (token : String)
    → RoundTrips codec (stamped codec now ttl payload)
    → sign_payload codec now ttl payload ≡ some token
    → later ≤ whole_second codec now + seconds ttl
    → verify_payload codec later token ≡ valid (stamped codec now ttl payload)
unfolding sign_payload verify_payload
signed_verified codec now later ttl payload token (read, split) signed soon =
    elim (Bool-cases (nat_beq ttl 0)) [
      | inl zero_ttl ↦ ground (arith, rw zero_ttl at signed)
      | inr lasting ↦
          let c = stamped codec now ttl payload in
          let h = rw lasting at signed in
          let same : str_append (codec.encode c) (str_append "." (codec.signature (codec.encode c)))
              ≡ token =
            cc in
          rw (sym same) (
            rw split
              (parts_verified codec later c (whole_second codec now + seconds ttl) read refl soon))
    ]

abbrev pub IsSigned : TokenCodec → Moment → Claims → List String → Type 0
IsSigned codec now claims parts =
    (body : String) × (parts ≡ body ∷ codec.signature body ∷ [])
    × (codec.decode body ≡ some claims)
    × (end : Moment) × (claims.exp ≡ some end)
    × (now ≤ end)

parts-IsSigned :
    (codec : TokenCodec) (now : Moment) (parts : List String) (claims : Claims)
    → verify_parts codec now parts ≡ valid claims
    → IsSigned codec now claims parts
unfolding verify_parts
parts-IsSigned codec now [] claims h = ground arith
parts-IsSigned codec now (body ∷ []) claims h = ground arith
parts-IsSigned codec now (body ∷ given ∷ x ∷ parts) claims h = ground arith
parts-IsSigned codec now (body ∷ given ∷ []) claims h =
    elim (Bool-cases (codec.signature body == given)) [
      | inr forged ↦ ground (arith, rw forged at h)
      | inl real ↦ elim (Option-cases (codec.decode body)) [
        | inl unread ↦ ground (arith, rw (real, unread) at h)
        | inr (c, read) ↦ elim (Option-cases c.exp) [
          | inl endless ↦ ground (arith, rw (real, read, endless) at h)
          | inr (end, at) ↦
              let h' = rw (real, read, at) at h in
              elim (Bool-cases (ltb end now)) [
                | inl late ↦ ground (arith, rw late at h')
                | inr open_yet ↦
                    let h'' = rw open_yet at h' in
                    let same : c ≡ claims = cc in
                    let sig : given ≡ codec.signature body =
                      sym ((==_iff (codec.signature body) given).0 real) in
                    (
                      body,
                      rw sig,
                      read ∙ ap some same,
                      end,
                      ap (λ (d : Claims). d.exp) (sym same) ∙ at,
                      ground arith,
                    )
              ]
        ]
      ]
    ]

-- A token is accepted only with a signature of its body by the application's key, with the claims of
-- that body, and before it expires.
pub verify_payload-IsSigned :
    (codec : TokenCodec) (now : Moment) (token : String) (claims : Claims)
    → verify_payload codec now token ≡ valid claims
    → IsSigned codec now claims (codec.split_dots token)
unfolding verify_payload
verify_payload-IsSigned codec now token claims h =
    parts-IsSigned codec now (codec.split_dots token) claims h
