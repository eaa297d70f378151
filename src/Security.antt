-- ===== src/Security.antt =====
-- app/security.py: signed tokens. The HMAC with the application's key, base64, JSON and the splitting
-- of a text at its dots come from Python's library, as the parameter `codec`; what is relied on is
-- that a payload is decoded to what was encoded, and that neither base64 text has a dot.
pub mod Tokens
use Prim.Native.String.{◌++◌ as str_append}
use omni_flow.Prelude.{
  ℕ, ◌+◌, ◌/◌, ◌≡◌, String, Bool, true, false, Option, none, some, List, [], ◌∷◌, ◌==◌, string_eq,
  not, if◌then◌else◌, ltb, nat_beq,
}
use omni_flow.Json.{Json}
use omni_flow.Store.{Moment, seconds}

-- The claims that the code reads. `exp` is the moment of the number of seconds, if it is a number.
pub record Claims : Type 0 where
  pub sub : Json
  pub tid : Json
  pub typ : Json
  pub uid : Json
  pub next : Json
  pub iat : Option Moment
  pub exp : Option Moment

pub record TokenCodec : Type 0 where
  pub encode : Claims → String
  pub decode : String → Option Claims
  pub signature : String → String
  pub split_dots : String → List String

-- What is relied on for a payload: it is decoded to what was encoded, and the token made of it has
-- one dot, between its body and its signature.
abbrev pub RoundTrips : TokenCodec → Claims → Type 0
RoundTrips codec c =
    let body = codec.encode c in
    (codec.decode body ≡ some c)
    × (codec.split_dots (str_append body (str_append "." (codec.signature body)))
        ≡ body ∷ codec.signature body ∷ [])

pub data TokenError : Type 0 where
  malformed bad_signature bad_payload expired : TokenError

pub data Verified (A : Type 0) : Type 0 where
  valid : A → Verified A
  invalid : TokenError → Verified A

module _ (codec : TokenCodec) where
  open codec use {encode, decode, signature, split_dots}

  -- `int(time.time())`, as a moment.
  abbrev pub whole_second : Moment → Moment
  whole_second now = seconds (now / 1_000_000)

  abbrev pub stamped : Moment → ℕ → Claims → Claims
  stamped now ttl payload = record payload {
    iat = some (whole_second now);
    exp = some (whole_second now + seconds ttl);
  }

  -- `none` for the ValueError of a lifetime that is not positive.
  unfoldable pub sign_payload : Moment → ℕ → Claims → Option String
  sign_payload now ttl payload =
      let body = encode (stamped now ttl payload) in
      if nat_beq ttl 0 then none else some (str_append body (str_append "." (signature body)))

  abbrev pub unexpired : Moment → Claims → Option Moment → Verified Claims
  unexpired now claims none = invalid expired
  unexpired now claims (some end) = if ltb end now then invalid expired else valid claims

  abbrev pub read_claims : Moment → Option Claims → Verified Claims
  read_claims now none = invalid bad_payload
  read_claims now (some claims) = unexpired now claims claims.exp

  unfoldable pub verify_parts : Moment → List String → Verified Claims
  verify_parts now (body ∷ given ∷ []) =
      if not (signature body == given) then invalid bad_signature else read_claims now (decode body)
  verify_parts now _ = invalid malformed

  -- A text with no dot, the empty one too, has one part.
  unfoldable pub verify_payload : Moment → String → Verified Claims
  unfolding verify_parts
  verify_payload now token = verify_parts now (split_dots token)
