-- ===== src/Webhooks/Requests.antt =====
-- What a webhook request leaves, accepted or refused.
use innoprog_fastapi_deliver.Prelude.{
  false, refl, subst, sym, ap, ◌∙◌, ℕ, ◌≡◌, ◌≤◌, ◌⊎◌, String, true, some, number_eq, text_eq,
  is_none, if◌then◌else◌, arith, ok, err, Option-cases, Bool-cases, Result-cases, inl, inr,
}
use package.text.Mathlib.TextEquality.{eq_iff}
use innoprog_fastapi_deliver.Runtime.{Runtime, Payload, text}
use innoprog_fastapi_deliver.Dict
use innoprog_fastapi_deliver.Dict.{get-put_self}
use innoprog_fastapi_deliver.Errors.{Error, http_exception}
use innoprog_fastapi_deliver.Webhooks.{
  announced_too_large, WebhookLibrary, WebhookSettings, PaymentWebhookEnvelope, durable_payload,
  WebhookRequest, WebhookState, accept, checked_webhook, payment_webhook, verify_webhook_signature,
  timestamp_is_fresh, outcome_of, same_payload,
}
use innoprog_fastapi_deliver.Webhooks.Payloads.{same_payload_iff}

module _ (py : Runtime) (lib : WebhookLibrary) (settings : WebhookSettings) where
  -- the payload an event is recorded with
  pub record IsPayload (envelope : PaymentWebhookEnvelope) (raw_body : String) (payload : Payload)
      : Type 0 where
    pub event_id : Dict.get "event_id" payload ≡ some (text (py.uuid_str envelope.id))
    pub event_type : Dict.get "event_type" payload ≡ some (text envelope.type)
    pub order_id : Dict.get "order_id" payload ≡ some (text (py.uuid_str envelope.order_id))
    pub payment_id : Dict.get "payment_id" payload ≡ some (text envelope.payment_id)
    pub payload_sha256 :
        Dict.get "payload_sha256" payload ≡ some (text (py.sha256_hexdigest raw_body))

  durable_payload-IsPayload :
      (envelope : PaymentWebhookEnvelope) (raw_body : String)
      → IsPayload envelope raw_body (durable_payload py envelope raw_body)
  unfolding durable_payload Dict.get
  durable_payload-IsPayload envelope raw_body = record {
    event_id = refl;
    event_type = refl;
    order_id = refl;
    payment_id = refl;
    payload_sha256 = refl;
  }

  -- what a checked request says
  abbrev Says : WebhookRequest → ℕ → Payload → Type 0
  Says r event_id payload =
      (envelope : PaymentWebhookEnvelope) × (lib.model_validate_json r.body ≡ some envelope)
      × (lib.uuid_of r.event_id_header ≡ some envelope.id)
      × (event_id ≡ envelope.id)
      × (payload ≡ durable_payload py envelope r.body)

  checked_facts :
      (r : WebhookRequest) (now event_id : ℕ) (payload : Payload)
      → checked_webhook py lib settings r now ≡ ok (event_id, payload)
      → (lib.byte_len r.body ≤ settings.webhook_max_bytes)
        × (verify_webhook_signature py lib settings r.body r.signature r.timestamp_header ≡ true)
        × (timestamp_is_fresh py lib settings r.timestamp_header now ≡ true)
        × (lib.media_type r.content_type ≡ "application/json")
  unfolding checked_webhook
  checked_facts r now event_id payload h = (
    ground (arith, h),
    ground (arith, h),
    ground (arith, h),
    ground (arith, h, eq_iff (lib.media_type r.content_type) "application/json"),
  )

  checked-Says :
      (r : WebhookRequest) (now event_id : ℕ) (payload : Payload)
      → checked_webhook py lib settings r now ≡ ok (event_id, payload)
      → Says r event_id payload
  unfolding checked_webhook
  checked-Says r now event_id payload h = elim (Option-cases (lib.model_validate_json r.body)) [
    | inl unread ↦ absurd (ground (arith, h, unread))
    | inr (envelope, read) ↦ elim (Option-cases (lib.uuid_of r.event_id_header)) [
      | inl no_id ↦ absurd (ground (arith, h, read, no_id))
      | inr (header_id, named) ↦
          let same : header_id ≡ envelope.id = ground (arith, h, read, named) in
          (
            envelope,
            read,
            named ∙ ap some same,
            ground (arith, h, read, named),
            ground (arith, h, read, named),
          )
    ]
  ]

  -- an accepted request
  pub record IsApplied (r : WebhookRequest) (now : ℕ) (s t : WebhookState) (answer : String)
      : Type 0 where
    pub envelope : PaymentWebhookEnvelope
    pub payload : Payload
    pub read : lib.model_validate_json r.body ≡ some envelope
    pub named : lib.uuid_of r.event_id_header ≡ some envelope.id
    pub of_envelope : IsPayload envelope r.body payload
    pub bounded : lib.byte_len r.body ≤ settings.webhook_max_bytes
    pub signed :
        verify_webhook_signature py lib settings r.body r.signature r.timestamp_header ≡ true
    pub fresh : timestamp_is_fresh py lib settings r.timestamp_header now ≡ true
    pub json : lib.media_type r.content_type ≡ "application/json"
    pub recorded : Dict.get envelope.id t.records ≡ some payload
    pub once : t.records ≡ (
        if is_none (Dict.get envelope.id s.records)
        then Dict.put envelope.id payload s.records
        else s.records)
    pub answered : answer ≡ outcome_of py lib settings (is_none (Dict.get envelope.id s.records))

  -- An accepted request, once its event id is known to be its envelope's.
  IsApplied-of :
      (r : WebhookRequest) (now event_id : ℕ) (payload : Payload) (s t : WebhookState)
      (answer : String)
      → checked_webhook py lib settings r now ≡ ok (event_id, payload)
      → Dict.get event_id t.records ≡ some payload
      → t.records ≡ (
          if is_none (Dict.get event_id s.records)
          then Dict.put event_id payload s.records
          else s.records)
      → answer ≡ outcome_of py lib settings (is_none (Dict.get event_id s.records))
      → IsApplied r now s t answer
  IsApplied-of r now event_id payload s t answer checked recorded once answered =
      let (bounded, signed, fresh, json) = checked_facts r now event_id payload checked in
      let (envelope, read, named, same, durable) = checked-Says r now event_id payload checked in
      record {
        envelope = envelope;
        payload = payload;
        read = read;
        named = named;
        of_envelope =
            subst (IsPayload envelope r.body) (sym durable)
              (durable_payload-IsPayload envelope r.body);
        bounded = bounded;
        signed = signed;
        fresh = fresh;
        json = json;
        recorded = ground (arith, recorded, same);
        once =
            subst
              (λ i. t.records ≡ (
                if is_none (Dict.get i s.records) then Dict.put i payload s.records else s.records))
              same once;
        answered = ground (arith, answered, same);
      }

  -- a request that must be accepted
  pub record IsDue (r : WebhookRequest) (now : ℕ) (s : WebhookState) : Type 0 where
    pub envelope : PaymentWebhookEnvelope
    pub announced : announced_too_large py lib settings r.content_length ≡ false
    pub bounded : lib.byte_len r.body ≤ settings.webhook_max_bytes
    pub signed :
        verify_webhook_signature py lib settings r.body r.signature r.timestamp_header ≡ true
    pub fresh : timestamp_is_fresh py lib settings r.timestamp_header now ≡ true
    pub json : lib.media_type r.content_type ≡ "application/json"
    pub read : lib.model_validate_json r.body ≡ some envelope
    pub named : lib.uuid_of r.event_id_header ≡ some envelope.id
    pub unclaimed :
        (payload : Payload)
        → Dict.get envelope.id s.records ≡ some payload
        → payload ≡ durable_payload py envelope r.body

  IsDue-checked :
      (r : WebhookRequest) (now : ℕ) (s : WebhookState) (due : IsDue r now s)
      → checked_webhook py lib settings r now
        ≡ ok (due.envelope.id, durable_payload py due.envelope r.body)
  unfolding checked_webhook
  IsDue-checked r now s due = ground (
    arith,
    due.announced,
    due.bounded,
    due.signed,
    due.fresh,
    due.read,
    due.named,
    due.json,
    eq_iff (lib.media_type r.content_type) "application/json",
  )

  not_claimed :
      (r : WebhookRequest) (now : ℕ) (s : WebhookState) (event_id : ℕ) (payload existing : Payload)
      → checked_webhook py lib settings r now ≡ ok (event_id, payload)
      → Dict.get event_id s.records ≡ some existing
      → same_payload existing payload ≡ false
      → ¬ IsDue r now s
  not_claimed r now s event_id payload existing checked found other due =
      let e = IsDue-checked r now s due in
      let same_id : event_id ≡ due.envelope.id = ground (arith, checked, e) in
      let durable : payload ≡ durable_payload py due.envelope r.body = ground (arith, checked, e) in
      let same : existing ≡ payload =
        due.unclaimed existing (ground (arith, found, same_id)) ∙ sym durable in
      absurd (ground (arith, other, (same_payload_iff existing payload).1 same))

  -- A webhook request ends in one of two ways. It is refused and leaves the records and the audit trail
  -- as they were, and then it is not the case that it is announced and arrives within the limit, is
  -- signed, fresh and JSON, names the id of its envelope in the header, and no other payload is recorded
  -- under that id; or its body is JSON within the limit, signed and fresh, the event id of its header is
  -- that of the envelope in its body, the envelope is recorded under that id, with its type, order and
  -- payment and the digest of the body, and nothing else is, and the answer says whether the event was
  -- new.
  pub webhook_outcome :
      (r : WebhookRequest) (now : ℕ) (s : WebhookState)
      → let o = payment_webhook py lib settings r now s in
        ((e : Error) × (o ≡ (err e, s)) × (¬ IsDue r now s))
        ⊎ ((answer : String) × (o.0 ≡ ok answer) × IsApplied r now s o.1 answer)
  unfolding payment_webhook accept
  webhook_outcome r now s = elim (Result-cases (checked_webhook py lib settings r now)) [
    | inr (e, refused) ↦ inl (
      e,
      ground (arith, refused),
      λ due. absurd (ground (arith, refused, IsDue-checked r now s due)),
    )
    | inl ((event_id, payload), checked) ↦ elim (Option-cases (Dict.get event_id s.records)) [
      | inl new ↦ inr (
        "accepted",
        ground (arith, checked, new),
        IsApplied-of r now event_id payload s (payment_webhook py lib settings r now s).1 _ checked
            (ground (arith, checked, new, get-put_self event_id payload s.records))
            (ground (arith, checked, new)) (ground (arith, new)),
      )
      | inr (existing, found) ↦ elim (Bool-cases (same_payload existing payload)) [
        | inr other ↦ inl (
          http_exception 409 "webhook event ID conflict",
          ground (arith, checked, found, other),
          not_claimed r now s event_id payload existing checked found other,
        )
        | inl again ↦ inr (
          "duplicate",
          ground (arith, checked, found, again),
          IsApplied-of r now event_id payload s (payment_webhook py lib settings r now s).1 _
              checked (ground (arith, checked, found, again, same_payload_iff existing payload))
              (ground (arith, checked, found, again)) (ground (arith, found)),
        )
      ]
    ]
  ]
