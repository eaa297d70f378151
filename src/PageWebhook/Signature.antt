-- ===== src/PageWebhook/Signature.antt =====
-- Which events are let in.
use mathlib.Core.Bool.{false≢true}
use Prim.Native.String.{◌++◌ as str_append}
use omni_flow.Prelude.{
  ◌≡◌, ◌≢◌, refl, sym, ap, ◌∙◌, ==_iff, ◌⊎◌, inl, inr, String, true, false, Option, none, some,
  List, ◌==◌, string_eq, Bool-cases, Option-cases,
}
use omni_flow.Json.Doc.{Doc, null, flag, num, fraction, text, array, object, Fields, as_object}
use omni_flow.Store.{Moment, Database}
use omni_flow.Store.Comments.{CommentInput}
use omni_flow.PageWebhook.{
  WebOps, WebhookSettings, WebhookAnswer, event_received, not_configured, invalid_signature,
  not_json, not_an_object, internal_error, signature_fits, check_signature, iter_comment_events,
  persist, after_body, receive_webhook,
}

module _ (web : WebOps) (uid : String × String → String) (now : Moment)
    (settings : WebhookSettings) where
  open web use {ops, hmac_hex, loads}

  -- The header holds the signature of the body by the app's secret.
  abbrev pub IsSigned : String → Option String → Type 0
  IsSigned body header =
      (h : String) × (header ≡ some h)
      × (h ≢ "")
      × (ops.strip h ≡ str_append "sha256=" (hmac_hex settings.app_secret body))

  -- The body is signed by the secret that is set; or none is set, and this is not production.
  abbrev pub IsAuthentic : String → Option String → Type 0
  IsAuthentic body header =
      ((settings.app_secret ≢ "") × IsSigned body header)
      ⊎ ((settings.app_secret ≡ "") × (settings.production ≡ false))

  -- It is not, for one reason or the other, and the answer says for which.
  abbrev pub IsRejected : String → Option String → WebhookAnswer → Type 0
  IsRejected body header answer =
      ((settings.app_secret ≢ "") × (¬ IsSigned body header) × (answer ≡ invalid_signature))
      ⊎ ((settings.app_secret ≡ "") × (settings.production ≡ true) × (answer ≡ not_configured))

  fits_cases :
      (body : String) (header : Option String)
      → let fits =
          signature_fits ops header (str_append "sha256=" (hmac_hex settings.app_secret body)) in
        ((fits ≡ true) × IsSigned body header) ⊎ ((fits ≡ false) × (¬ IsSigned body header))
  unfolding signature_fits
  fits_cases body none = inr (refl, (λ s. cc (s.1)))
  fits_cases body (some h) =
      let expected = str_append "sha256=" (hmac_hex settings.app_secret body) in
      elim (Bool-cases (h == "")) [
        | inl blank ↦ inr (rw blank refl, (λ s. s.2 (cc (s.1) ∙ (==_iff h "").0 blank)))
        | inr given ↦ elim (Bool-cases (ops.strip h == expected)) [
          | inl fits ↦ inl (
            rw given fits,
            (
              h,
              refl,
              (λ e. false≢true (sym given ∙ (==_iff h "").1 e)),
              (==_iff (ops.strip h) expected).0 fits,
            ),
          )
          | inr wrong ↦ inr (
            rw given wrong,
            (λ s.
                let same : h ≡ s.0 = cc (s.1) in
                false≢true
                  (sym wrong ∙ (==_iff (ops.strip h) expected).1 (ap ops.strip same ∙ s.3))),
          )
        ]
      ]

  check_cases :
      (body : String) (header : Option String)
      → ((check_signature web settings body header ≡ none) × IsAuthentic body header)
        ⊎ ((refusal : WebhookAnswer) × (check_signature web settings body header ≡ some refusal)
            × IsRejected body header refusal)
  unfolding check_signature
  check_cases body header = elim (Bool-cases (settings.app_secret == "")) [
    | inl blank ↦
        let unset = (==_iff settings.app_secret "").0 blank in
        elim (Bool-cases settings.production) [
          | inl live ↦ inr (not_configured, rw (blank, live) refl, inr (unset, live, refl))
          | inr local ↦ inl (rw (blank, local) refl, inr (unset, local))
        ]
    | inr keyed ↦
        let set : settings.app_secret ≢ "" =
          λ e. false≢true (sym keyed ∙ (==_iff settings.app_secret "").1 e) in
        elim (fits_cases body header) [
          | inl (fits, signed) ↦ inl (rw (keyed, fits) refl, inl (set, signed))
          | inr (wrong, not_signed) ↦
              inr (invalid_signature, rw (keyed, wrong) refl, inl (set, not_signed, refl))
        ]
  ]

  -- What happens to a body that was let in.
  abbrev pub IsStored : String → Database → WebhookAnswer × Database → Type 0
  IsStored body db (answer, db') =
      (payload : Fields) × (events : List (String × CommentInput)) × (loads body
        ≡ some (object payload))
      × (iter_comment_events web payload ≡ some events)
      × (answer ≡ event_received)
      × (db' ≡ persist web uid now settings events db)

  -- Why a body that was let in cannot be read, and the answer that says so.
  abbrev pub IsUnread : String → WebhookAnswer → Type 0
  IsUnread body answer =
      ((loads body ≡ none) × (answer ≡ not_json))
      ⊎ ((d : Doc) × (loads body ≡ some d) × (as_object d ≡ none) × (answer ≡ not_an_object))
      ⊎ ((payload : Fields) × (loads body ≡ some (object payload))
          × (iter_comment_events web payload ≡ none)
          × (answer ≡ internal_error))

  body_cases :
      (body : String) (db : Database) (parsed : Option Doc)
      → loads body ≡ parsed
      → let end = after_body web uid now settings parsed db in
        (IsUnread body end.0 × (end.1 ≡ db)) ⊎ IsStored body db end
  unfolding iter_comment_events
  body_cases body db none e = inl (inl (e, refl), refl)
  body_cases body db (some null) e = inl (inr (inl (null, e, refl, refl)), refl)
  body_cases body db (some (flag b)) e = inl (inr (inl (flag b, e, refl, refl)), refl)
  body_cases body db (some (num n)) e = inl (inr (inl (num n, e, refl, refl)), refl)
  body_cases body db (some (fraction s)) e = inl (inr (inl (fraction s, e, refl, refl)), refl)
  body_cases body db (some (text s)) e = inl (inr (inl (text s, e, refl, refl)), refl)
  body_cases body db (some (array items)) e = inl (inr (inl (array items, e, refl, refl)), refl)
  body_cases body db (some (object payload)) e =
      elim (Option-cases (iter_comment_events web payload)) [
        | inl raised ↦ rw raised (inl (inr (inr (payload, e, raised, refl)), refl))
        | inr (events, found) ↦ inr (payload, events, e, found, rw found refl, rw found refl)
      ]

  -- A body without the signature that the app's secret gives is answered as one of an invalid
  -- signature, and each is refused in production if no secret is set: nothing is stored. Of the
  -- others, one that is not JSON, is no object, or has events whose reading raises an exception is
  -- answered so, and nothing is stored. Any other is answered as received, and the events that it
  -- holds are stored, all of them.
  pub receive_webhook_cases :
      (body : String) (header : Option String) (db : Database)
      → let end = receive_webhook web uid now settings body header db in
        (IsRejected body header end.0 × (end.1 ≡ db))
        ⊎ (IsAuthentic body header × IsUnread body end.0 × (end.1 ≡ db))
        ⊎ (IsAuthentic body header × IsStored body db end)
  unfolding receive_webhook
  receive_webhook_cases body header db = elim (check_cases body header) [
    | inr (refusal, refused, why) ↦ rw (refused, receive_webhook) (inl (why, refl))
    | inl (passed, authentic) ↦
        rw (passed, receive_webhook)
          (elim (body_cases body db (loads body) refl) [
            | inl (unread, same) ↦ inr (inl (authentic, unread, same))
            | inr stored ↦ inr (inr (authentic, stored))
          ])
  ]
