-- ===== src/Sim/Publisher/Stream.antt =====
-- What internal/sim/publisher.go hands to the client of the local stream, and what it drops.
use vikasa_demo.Base.{
  ℕ, suc, ◌+◌, ◌^◌, ◌<◌, ◌≡◌, refl, ap, true, false, Result, ok, err, List, [], ◌∷◌, length, arith,
  Bool-cases, inl, inr, String,
}
use vikasa_demo.Sim.Emitter.{u64, Emission}
use vikasa_demo.Events.Subject.{EventError, parse_subject}
use vikasa_demo.Events.Wire.{Wire, time_end}
use vikasa_demo.Events.Envelope.{Envelope, Msg, new_envelope, from_msg, message}
use vikasa_demo.Events.Delivery.{from_msg-new_envelope}
use vikasa_demo.Sim.Publisher.{
  JetStream, Publisher, publish_built, emit, Occasion, emits, ack_failed, moved_on, occur,
  occur_all, drop,
}

module _ (W : Wire) (J : JetStream W) where
  -- A message that a consumer reads as an event of a cabinet: as its envelope, with a subject of its own.
  abbrev pub IsEventOf : (dot district cabinet : String) → Emission W.Message → Msg W → Type 0
  IsEventOf dot district cabinet e m =
      (env : Envelope) × (service : String) × (event : String) × (new_envelope W dot district
          cabinet e.controller e.ce_type e.at e.msg
        ≡ ok env)
      × (from_msg W m ≡ ok env)
      × (parse_subject m.subject
          ≡ ok (record {
            dot = dot;
            district = district;
            cabinet = cabinet;
            service = service;
            controller = e.controller;
            event = event;
          }))

  -- What becomes of the client as things occur: the messages that it takes over, one for each event
  -- whose publish it does not refuse, and how many events it is not given or refuses.
  pub data Hands (dot district cabinet : String)
      : List (Occasion W J) → List (Msg W) → ℕ → J.State → J.State → Type 0 where
    nothing : {s : J.State} → Hands dot district cabinet [] [] 0 s s
    taken :
        {hs : List (Occasion W J)} {ms : List (Msg W)} {refused : ℕ} {s s1 s' : J.State}
        (e : Emission W.Message) (m : Msg W)
        → IsEventOf dot district cabinet e m
        → J.publish_msg_async m s ≡ (s1, true)
        → Hands dot district cabinet hs ms refused s1 s'
        → Hands dot district cabinet (emits e ∷ hs) (m ∷ ms) refused s s'
    turned_away :
        {hs : List (Occasion W J)} {ms : List (Msg W)} {refused : ℕ} {s s1 s' : J.State}
        (e : Emission W.Message) (m : Msg W)
        → IsEventOf dot district cabinet e m
        → J.publish_msg_async m s ≡ (s1, false)
        → Hands dot district cabinet hs ms refused s1 s'
        → Hands dot district cabinet (emits e ∷ hs) ms (suc refused) s s'
    malformed :
        {hs : List (Occasion W J)} {ms : List (Msg W)} {refused : ℕ} {s s' : J.State}
        (e : Emission W.Message) (x : EventError)
        → new_envelope W dot district cabinet e.controller e.ce_type e.at e.msg ≡ err x
        → Hands dot district cabinet hs ms refused s s'
        → Hands dot district cabinet (emits e ∷ hs) ms (suc refused) s s'
    failed :
        {hs : List (Occasion W J)} {ms : List (Msg W)} {refused : ℕ} {s s1 s' : J.State}
        → Hands dot district cabinet hs ms refused s1 s'
        → Hands dot district cabinet (ack_failed s1 ∷ hs) ms refused s s'
    moved :
        {hs : List (Occasion W J)} {ms : List (Msg W)} {refused : ℕ} {s s1 s' : J.State}
        → Hands dot district cabinet hs ms refused s1 s'
        → Hands dot district cabinet (moved_on s1 ∷ hs) ms refused s s'

  -- the events emitted and the acknowledgements that failed
  abbrev pub emissions : List (Occasion W J) → ℕ
  emissions [] = 0
  emissions (emits e ∷ hs) = suc (emissions hs)
  emissions (ack_failed s ∷ hs) = emissions hs
  emissions (moved_on s ∷ hs) = emissions hs

  abbrev pub failures : List (Occasion W J) → ℕ
  failures [] = 0
  failures (emits e ∷ hs) = failures hs
  failures (ack_failed s ∷ hs) = suc (failures hs)
  failures (moved_on s ∷ hs) = failures hs

  -- events before the year 10000
  abbrev pub AreTimely : List (Occasion W J) → Type 0
  AreTimely [] = Unit
  AreTimely (emits e ∷ hs) = (e.at < time_end) × AreTimely hs
  AreTimely (ack_failed s ∷ hs) = AreTimely hs
  AreTimely (moved_on s ∷ hs) = AreTimely hs

  pub record Balances (hs : List (Occasion W J)) (p q : Publisher W J) : Type 0 where
    pub handed : List (Msg W)
    pub refused : ℕ
    pub hands : Hands p.dot p.district p.cabinet hs handed refused p.js q.js
    pub balance : length handed + refused ≡ emissions hs
    pub dropped : q.dropped ≡ u64 (p.dropped + refused + failures hs)

  abbrev Goes : List (Occasion W J) → Publisher W J → Type 0
  Goes hs p = p.dropped < 2 ^ 64 → Balances hs p (occur_all W J hs p)

  -- after an event that is not handed over
  dropped_one :
      (e : Emission W.Message) (hs : List (Occasion W J)) (p : Publisher W J) (s : J.State) (n : ℕ)
      → n ≡ u64 (p.dropped + 1)
      → ((ms : List (Msg W)) (refused : ℕ) (s' : J.State)
          → Hands p.dot p.district p.cabinet hs ms refused s s'
          → Hands p.dot p.district p.cabinet (emits e ∷ hs) ms (suc refused) p.js s')
      → Goes hs (record p { js = s; dropped = n })
      → Balances (emits e ∷ hs) p (occur_all W J hs (record p { js = s; dropped = n }))
  dropped_one e hs p s n is_n step rest =
      let r = rest (omega (arith, is_n)) in
      record {
        handed = r.handed;
        refused = suc r.refused;
        hands = step r.handed r.refused _ r.hands;
        balance = omega (arith, r.balance);
        dropped = omega (arith, r.dropped, is_n);
      }

  emit-Balances :
      (e : Emission W.Message) (hs : List (Occasion W J)) (p : Publisher W J)
      → e.at < time_end
      → p.dropped < 2 ^ 64
      → ((q : Publisher W J) → Goes hs q)
      → Balances (emits e ∷ hs) p (occur_all W J hs (emit W J e p))
  unfolding emit drop
  emit-Balances e hs p h k rest =
      built (new_envelope W p.dot p.district p.cabinet e.controller e.ce_type e.at e.msg) refl
    where
      built :
          (r : Result EventError Envelope)
          → new_envelope W p.dot p.district p.cabinet e.controller e.ce_type e.at e.msg ≡ r
          → Balances (emits e ∷ hs) p (occur_all W J hs (publish_built W J r p))
      built (err x) f =
          dropped_one e hs p p.js _ refl (λ ms refused s' t. malformed e x f t) (rest _)
      built (ok env) f =
          let m = message W env in
          let s = (J.publish_msg_async m p.js).0 in
          let (g, (service, event, _, i)) =
            from_msg-new_envelope W p.dot p.district p.cabinet e.controller e.ce_type e.at e.msg h
              f in
          let is_event : IsEventOf p.dot p.district p.cabinet e m =
            (env, service, event, f, g, i) in
          elim (Bool-cases (J.publish_msg_async m p.js).1) [
            | inl b ↦ rw b (
                let r = rest (record p { js = s }) k in
                record {
                  handed = m ∷ r.handed;
                  refused = r.refused;
                  hands = taken e m is_event (ap (λ x. (s, x)) b) r.hands;
                  balance = omega (arith, r.balance);
                  dropped = r.dropped;
                })
            | inr b ↦ rw b (
                dropped_one e hs p s _ refl
                  (λ ms refused s' t. turned_away e m is_event (ap (λ x. (s, x)) b) t) (rest _))
          ]

  -- Whatever events before the year 10000 a publisher emits, whatever acknowledgements fail and however
  -- the client moves on between: each event is either handed over to the client, once, in order and
  -- as a message that a consumer unwraps to the envelope of the event, with a subject that reads as
  -- the cabinet's, or it is refused, or has no envelope; and the drops that are counted, modulo 2^64,
  -- are those that were refused or had no envelope and the acknowledgements that failed.
  pub occur_all-Balances :
      (hs : List (Occasion W J)) (p : Publisher W J)
      → AreTimely hs
      → p.dropped < 2 ^ 64
      → Balances hs p (occur_all W J hs p)
  unfolding occur_all occur drop
  occur_all-Balances [] p h k = record {
    handed = [];
    refused = 0;
    hands = nothing;
    balance = omega arith;
    dropped = omega (arith, k);
  }
  occur_all-Balances (emits e ∷ hs) p (h, t) k =
      emit-Balances e hs p h k (λ q. occur_all-Balances hs q t)
  occur_all-Balances (ack_failed s ∷ hs) p t k =
      let r =
        occur_all-Balances hs (record p { js = s; dropped = u64 (p.dropped + 1) }) t
          (omega arith) in
      record {
        handed = r.handed;
        refused = r.refused;
        hands = failed r.hands;
        balance = r.balance;
        dropped = omega (arith, r.dropped);
      }
  occur_all-Balances (moved_on s ∷ hs) p t k =
      let r = occur_all-Balances hs (record p { js = s }) t k in
      record {
        handed = r.handed;
        refused = r.refused;
        hands = moved r.hands;
        balance = r.balance;
        dropped = r.dropped;
      }
