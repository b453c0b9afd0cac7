-- ===== src/Sim/Reversible/Schedule.antt =====
-- internal/sim/reversible.go over any ticks: the events of a lane tell its schedule, with its times.
use mathlib.Core.Path.{subst}
use vikasa_demo.Base.{
  ℕ, ◌+◌, ◌-◌, ◌*◌, ◌≤◌, ◌<◌, ◌≡◌, refl, sym, true, List, [], ◌∷◌, ◌++◌, ◌⊎◌, inl, inr, arith,
  String, leb, if-cases, Bool-cases, if◌then◌else◌,
}
use vikasa_demo.Sim.Emitter.{second, Emission}
use vikasa_demo.Sim.Reversible.{
  rev_open_dur, rev_transition_dur, rev_keepalive, LaneFlowState, lane_open, in_transition,
  TravelDirection, northbound, southbound, LaneStateChanged, Lane, send, advance, tick,
  same_direction, opposite, new_reversible_lane,
}

-- What an event says: from a state and a direction to others.
pub record Says (e : Emission LaneStateChanged) (s : LaneFlowState) (d : TravelDirection)
    (s' : LaneFlowState) (d' : TravelDirection) : Type 0 where
  pub from_state : e.msg.previous_state ≡ s
  pub from_direction : e.msg.previous_direction ≡ d
  pub to_state : e.msg.new_state ≡ s'
  pub to_direction : e.msg.new_direction ≡ d'

own_words :
    (e : Emission LaneStateChanged)
    → Says e e.msg.previous_state e.msg.previous_direction e.msg.new_state e.msg.new_direction
own_words e = record {
  from_state = refl;
  from_direction = refl;
  to_state = refl;
  to_direction = refl;
}

abbrev pub AreOpposite : TravelDirection → TravelDirection → Type 0
AreOpposite d d' = ((d ≡ northbound) × (d' ≡ southbound)) ⊎ ((d ≡ southbound) × (d' ≡ northbound))

-- The events, newest last, follow the schedule up to a state and a direction that hold since a time.
pub data IsSchedule
    : List (Emission LaneStateChanged) → LaneFlowState → TravelDirection → ℕ → Type 0 where
  starts :
      (e : Emission LaneStateChanged)
      → Says e lane_open northbound lane_open northbound
      → IsSchedule (e ∷ []) lane_open northbound e.at
  closes :
      {es : List (Emission LaneStateChanged)} {d : TravelDirection} {since : ℕ}
      (e : Emission LaneStateChanged)
      → IsSchedule es lane_open d since
      → since + 120 * second ≤ e.at
      → Says e lane_open d in_transition d
      → IsSchedule (es ++ e ∷ []) in_transition d e.at
  reopens :
      {es : List (Emission LaneStateChanged)} {d : TravelDirection} {since : ℕ}
      (e : Emission LaneStateChanged) (d' : TravelDirection)
      → IsSchedule es in_transition d since
      → since + 20 * second ≤ e.at
      → AreOpposite d d'
      → Says e in_transition d lane_open d'
      → IsSchedule (es ++ e ∷ []) lane_open d' e.at
  repeats :
      {es : List (Emission LaneStateChanged)} {s : LaneFlowState} {d : TravelDirection} {since : ℕ}
      (e : Emission LaneStateChanged)
      → IsSchedule es s d since
      → Says e s d s d
      → IsSchedule (es ++ e ∷ []) s d since

abbrev pub OnSchedule : Lane → Type 0
OnSchedule o = IsSchedule o.sent o.dev.state o.dev.direction o.dev.phase_start

directed :
    {es : List (Emission LaneStateChanged)} {s : LaneFlowState} {d : TravelDirection} {since : ℕ}
    → IsSchedule es s d since
    → (d ≡ northbound) ⊎ (d ≡ southbound)
directed (starts e says) = inl refl
directed (closes e h late says) = directed h
directed (reopens e d' h late (inl (p, q)) says) = inr q
directed (reopens e d' h late (inr (p, q)) says) = inl q
directed (repeats e h says) = directed h

opposite_lem :
    (d : TravelDirection) → (d ≡ northbound) ⊎ (d ≡ southbound) → AreOpposite d (opposite d)
opposite_lem d h = ground arith

in_service :
    {es : List (Emission LaneStateChanged)} {s : LaneFlowState} {d : TravelDirection} {since : ℕ}
    → IsSchedule es s d since
    → (s ≡ lane_open) ⊎ (s ≡ in_transition)
in_service (starts e says) = inl refl
in_service (closes e h late says) = inr refl
in_service (reopens e d' h late o says) = inl refl
in_service (repeats e h says) = in_service h

same_direction_refl : (d : TravelDirection) → same_direction d d ≡ true
same_direction_refl d = ground arith

module _ (now : ℕ) (o : Lane) where
  -- a running lane in a state
  abbrev in_state : LaneFlowState → Lane
  in_state s = record o { dev = record o.dev { started = true; state = s } }

  stays :
      {s : LaneFlowState}
      → OnSchedule (in_state s)
      → OnSchedule (
          if leb rev_keepalive (now - o.dev.last_emit)
          then send now s o.dev.direction "schedule-keepalive" (in_state s)
          else in_state s)
  unfolding send
  stays h =
      if-cases OnSchedule (leb rev_keepalive (now - o.dev.last_emit)) _ _
        (λ _. repeats _ h (own_words _)) (λ _. h)

  tick-lane_open : OnSchedule (in_state lane_open) → OnSchedule (tick now (in_state lane_open))
  unfolding tick advance send
  tick-lane_open h = elim (Bool-cases (leb rev_open_dur (now - o.dev.phase_start))) [
    | inl k ↦ rw k (closes _ h (ground (arith, k)) (own_words _))
    | inr k ↦ rw (k, same_direction_refl) (stays h)
  ]

  tick-in_transition :
      OnSchedule (in_state in_transition) → OnSchedule (tick now (in_state in_transition))
  unfolding tick advance send
  tick-in_transition h = elim (Bool-cases (leb rev_transition_dur (now - o.dev.phase_start))) [
    | inl k ↦ rw k (
        reopens _ (opposite o.dev.direction) h (ground (arith, k))
          (opposite_lem o.dev.direction (directed h)) (own_words _))
    | inr k ↦ rw (k, same_direction_refl) (stays h)
  ]

  at_state :
      {s : LaneFlowState} → o.dev.started ≡ true → o.dev.state ≡ s → ◌≡◌ {A = Lane} (in_state s) o
  at_state started at = cc

  tick-OnSchedule : o.dev.started ≡ true → OnSchedule o → OnSchedule (tick now o)
  tick-OnSchedule started h = elim (in_service h) [
    | inl e ↦
        subst (λ x. OnSchedule (tick now x)) (at_state started e)
          (tick-lane_open (subst OnSchedule (sym (at_state started e)) h))
    | inr e ↦
        subst (λ x. OnSchedule (tick now x)) (at_state started e)
          (tick-in_transition (subst OnSchedule (sym (at_state started e)) h))
  ]

  tick-started : (tick now o).dev.started ≡ true
  unfolding tick
  tick-started = ground arith

-- the ticks at some times
unfoldable pub tick_all : List ℕ → Lane → Lane
unfolding tick
tick_all [] o = o
tick_all (now ∷ nows) o = tick_all nows (tick now o)

tick_all-OnSchedule :
    (nows : List ℕ) (o : Lane) → o.dev.started ≡ true → OnSchedule o → OnSchedule (tick_all nows o)
unfolding tick_all
tick_all-OnSchedule [] o started h = h
tick_all-OnSchedule (now ∷ nows) o started h =
    tick_all-OnSchedule nows (tick now o) (tick-started now o) (tick-OnSchedule now o started h)

-- Whatever the times of the ticks of a new lane are, if there is one, its events follow the schedule: it
-- starts open northbound; it closes, keeping its direction, 120 seconds after it opened at the
-- earliest; it reopens in the opposite direction 20 seconds after it closed at the earliest; each event
-- starts from the state and the direction that the last one gave, and the others repeat these. The
-- lane is in the state and the direction that the events give, since the time that they give.
pub tick_all-IsSchedule :
    (controller : String) (now : ℕ) (nows : List ℕ)
    → let o = tick_all (now ∷ nows) (record { dev = new_reversible_lane controller; sent = [] }) in
      IsSchedule o.sent o.dev.state o.dev.direction o.dev.phase_start
unfolding new_reversible_lane tick send tick_all
tick_all-IsSchedule controller now nows = tick_all-OnSchedule nows _ refl (starts _ (own_words _))

-- At a tick the last report after it is less than the keepalive period old.
pub tick_fresh : (now : ℕ) (o : Lane) → (now - (tick now o).dev.last_emit) < rev_keepalive
unfolding tick
tick_fresh now o = ground arith
