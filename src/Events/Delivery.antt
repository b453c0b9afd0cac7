-- ===== src/Events/Delivery.antt =====
-- An event that internal/events wraps is the event that a consumer unwraps.
use mathlib.Core.Path.{subst}
use vikasa_demo.Base.{
  Char, Bool-cases, inl, inr, ok-injective, eq_iff, ℕ, ◌<◌, ◌≡◌, false, String, str_eq, ap, ◌∙◌,
  sym, ok, >>=-eq-ok, split,
}
use vikasa_demo.Events.Subject.{subject, service_event, parse_subject, type_parts}
use vikasa_demo.Events.Wire.{Wire, time_end}
use vikasa_demo.Events.Envelope.{Envelope, new_envelope, headers, from_msg, message, or_err}
use vikasa_demo.Events.Routing.{parse_subject-subject}

cons_nonempty : (c : Char) (s : String) → str_eq (String.◌∷◌ c s) "" ≡ false
cons_nonempty c s = elim (Bool-cases (str_eq (String.◌∷◌ c s) "")) [
  | inl e ↦ let p : String.◌∷◌ c s ≡ "" = (eq_iff _ _).0 e in absurd (cc)
  | inr e ↦ e
]

module _ (W : Wire) where
  get-headers :
      (e : Envelope)
      → (W.get "ce-id" (headers W e) ≡ e.id)
        × (W.get "ce-type" (headers W e) ≡ e.ce_type)
        × (W.get "ce-source" (headers W e) ≡ e.source)
        × (W.get "ce-time" (headers W e) ≡ W.format_time e.time)
  unfolding headers
  get-headers e = (simp (W.get-set), simp (W.get-set), simp (W.get-set), simp (W.get-set))

  from_msg-message :
      (e : Envelope)
      → e.time < time_end
      → str_eq e.id "" ≡ false
      → str_eq e.ce_type "" ≡ false
      → from_msg W (message W e) ≡ ok e
  unfolding from_msg
  from_msg-message e t i c =
      let (id, ty, src, time) = get-headers e in
      rw (id, ty, src, time, W.parse-format e.time t, i, c)

  module _ (dot district cabinet controller ce_type : String) (occurred_at : ℕ)
      (msg : W.Message) where
    new_envelope_parts :
        {e : Envelope}
        → new_envelope W dot district cabinet controller ce_type occurred_at msg ≡ ok e
        → (service : String) × (event : String) × (service_event ce_type ≡ ok (service, event))
          × (subject dot district cabinet service controller event ≡ ok e.subject)
          × (e.ce_type ≡ ce_type)
          × (e.time ≡ occurred_at)
          × (str_eq e.id "" ≡ false)
    unfolding new_envelope
    new_envelope_parts h =
        let (payload, m, h1) = >>=-eq-ok (or_err _ (W.marshal msg)) _ h in
        let ((service, event), s, h2) = >>=-eq-ok (service_event ce_type) _ h1 in
        let (subj, u, h3) =
          >>=-eq-ok (subject dot district cabinet service controller event) _ h2 in
        let q = ok-injective h3 in
        (
          service,
          event,
          s,
          u ∙ ap (λ (x : Envelope). ok x.subject) q,
          sym (ap (λ (x : Envelope). x.ce_type) q),
          sym (ap (λ (x : Envelope). x.time) q),
          subst (λ (x : Envelope). str_eq x.id "" ≡ false) q (W.hex_nonempty _),
        )

    type_nonempty : (p : String × String) → service_event ce_type ≡ ok p → str_eq ce_type "" ≡ false
    unfolding service_event split
    type_nonempty p h = go ce_type h
      where
        go : (s : String) → type_parts s (split s) ≡ ok p → str_eq s "" ≡ false
        go String.[] h = absurd (cc)
        go (String.◌∷◌ c s) h = cons_nonempty c s

    -- What a publisher wraps and sends, a consumer unwraps to the same envelope, and its subject reads
    -- as the identity that the publisher has, with the service and the event of the type.
    pub from_msg-new_envelope :
        {e : Envelope}
        → occurred_at < time_end
        → new_envelope W dot district cabinet controller ce_type occurred_at msg ≡ ok e
        → (from_msg W (message W e) ≡ ok e)
          × ((service : String) × (event : String) × (service_event ce_type ≡ ok (service, event))
              × (parse_subject e.subject
                  ≡ ok (record {
                    dot = dot;
                    district = district;
                    cabinet = cabinet;
                    service = service;
                    controller = controller;
                    event = event;
                  })))
    from_msg-new_envelope {e} t h =
        let (service, event, s, u, ty, at, id) = new_envelope_parts h in
        (
          from_msg-message e (rw at t) id (rw ty (type_nonempty (service, event) s)),
          (
            service,
            event,
            s,
            parse_subject-subject dot district cabinet service controller event e.subject u,
          ),
        )
