-- ===== src/Sim/Camera/Queueing.antt =====
-- What the events of internal/sim/camera.go say of a queue.
use vikasa_demo.Base.{
  ℕ, ◌-◌, ◌*◌, ◌/◌, ◌%◌, ◌^◌, ◌≤◌, ◌≡◌, refl, String, Bool, true, false, Option, none, some, List,
  [], ◌∷◌, ◌++◌, arith, if◌then◌else◌, is_nonempty, or_else, put, remove, get-remove,
  get_of_nonempty, nonempty_of_get, string_eq, Dict,
}
use vikasa_demo.Sim.Emitter.{second, Emission}
use vikasa_demo.Sim.Perception.{IncidentEvent}
use vikasa_demo.Sim.Camera.{
  TrafficIntervalReportLane, CameraMsg, zone_incident_detected, zone_incident_cleared,
  traffic_interval_report, queue_state_changed, traffic_sensor_status_report, queue_seconds,
}

-- The duration that is reported at a time for a queue: the whole seconds since its start, or 0 before
-- it, as a uint32, and never more than the time since then.
pub record IsDuration (n at start : ℕ) : Type 0 where
  pub seconds : n ≡ ((at - start) / second) % 2 ^ 32
  pub bounded : n * second ≤ at - start

abbrev pub Events : Type 0
Events = List (Emission CameraMsg)

-- What the events so far say: the incidents that are held, when one was detected last, and since when
-- every interval has reported a queue without an incident.
pub data IsQueueing : Events → Dict String Bool → Option ℕ → Option ℕ → Type 0 where
  quiet : IsQueueing [] [] none none
  detected :
      {es : Events} {held : Dict String Bool} {incident congestion : Option ℕ}
      (e : Emission CameraMsg) (id zone : String) (seq : ℕ)
      → IsQueueing es held incident congestion
      → e.msg ≡ zone_incident_detected id zone seq
      → IsQueueing (es ++ e ∷ []) (put id true held) (some e.at) congestion
  cleared :
      {es : Events} {held : Dict String Bool} {incident congestion : Option ℕ}
      (e : Emission CameraMsg) (id zone : String) (seq : ℕ)
      → IsQueueing es held incident congestion
      → e.msg ≡ zone_incident_cleared id zone seq
      → IsQueueing (es ++ e ∷ []) (remove id held) incident congestion
  healthy :
      {es : Events} {held : Dict String Bool} {incident congestion : Option ℕ}
      (e : Emission CameraMsg) (name : String) (seq : ℕ)
      → IsQueueing es held incident congestion
      → e.msg ≡ traffic_sensor_status_report name seq
      → IsQueueing (es ++ e ∷ []) held incident congestion
  no_queue :
      {es : Events} {held : Dict String Bool} {incident congestion : Option ℕ}
      (e : Emission CameraMsg) (lns : List TrafficIntervalReportLane) (seq : ℕ)
      → IsQueueing es held incident congestion
      → e.msg ≡ traffic_interval_report lns seq
      → is_nonempty held ≡ false
      → IsQueueing (es ++ e ∷ []) held incident none
  -- the queue of an incident starts where the incident was detected last
  behind_incident :
      {es : Events} {held : Dict String Bool} {congestion : Option ℕ} (e q : Emission CameraMsg)
      (lns : List TrafficIntervalReportLane) (zone : String) (start n seq seq' : ℕ)
      → IsQueueing es held (some start) congestion
      → e.msg ≡ traffic_interval_report lns seq
      → is_nonempty held ≡ true
      → q.at ≡ e.at
      → q.msg ≡ queue_state_changed zone n (some start) seq'
      → IsDuration n q.at start
      → IsQueueing ((es ++ e ∷ []) ++ q ∷ []) held (some start) none
  -- another starts with the first of the intervals that report it one after the other
  congested :
      {es : Events} {held : Dict String Bool} {incident congestion : Option ℕ}
      (e q : Emission CameraMsg) (lns : List TrafficIntervalReportLane) (zone : String)
      (start n seq seq' : ℕ)
      → IsQueueing es held incident congestion
      → e.msg ≡ traffic_interval_report lns seq
      → is_nonempty held ≡ false
      → q.at ≡ e.at
      → start ≡ or_else congestion e.at
      → q.msg ≡ queue_state_changed zone n (some start) seq'
      → IsDuration n q.at start
      → IsQueueing ((es ++ e ∷ []) ++ q ∷ []) held incident (some start)

pub queue_seconds-IsDuration : (at start : ℕ) → IsDuration (queue_seconds at (some start)) at start
queue_seconds-IsDuration at start = record { seconds = refl; bounded = omega arith }

nonempty_of_remove :
    (id : String) (m : Dict String Bool) → is_nonempty (remove id m) ≡ true → is_nonempty m ≡ true
nonempty_of_remove id m h =
    let (k, v, g) = get_of_nonempty (remove id m) h in
    nonempty_of_get k v m (ground (arith, g, get-remove id k m))

abbrev IsStarted : Option ℕ → Type 0
IsStarted o = (s : ℕ) × (o ≡ some s)

started :
    {es : Events} {held : Dict String Bool} {incident congestion : Option ℕ}
    → IsQueueing es held incident congestion
    → is_nonempty held ≡ true
    → IsStarted incident
started quiet h = absurd (cc)
started (detected e id zone seq q f) h = (e.at, refl)
started (cleared e id zone seq q f) h = started q (nonempty_of_remove id _ h)
started (healthy e name seq q f) h = started q h
started (no_queue e lns seq q f g) h = started q h
started (behind_incident e r lns zone start n seq seq' q f g a m d) h = (start, refl)
started (congested e r lns zone start n seq seq' q f g a s m d) h = started q h

-- the incidents that are held once some events are sent
unfoldable pub replay : List IncidentEvent → Dict String Bool → Dict String Bool
replay [] held = held
replay (ie ∷ ies) held = replay ies (if ie.raised then put ie.id true held else remove ie.id held)

pub replay-append :
    (ies : List IncidentEvent) (ie : IncidentEvent) (held : Dict String Bool)
    → replay (ies ++ ie ∷ []) held
      ≡ (if ie.raised then put ie.id true (replay ies held) else remove ie.id (replay ies held))
unfolding replay
replay-append [] ie held = refl
replay-append (x ∷ ies) ie held = replay-append ies ie _

pub reported :
    {es : Events} {held : Dict String Bool} {congestion : Option ℕ} (incident : Option ℕ)
    (e q : Emission CameraMsg) (lns : List TrafficIntervalReportLane) (zone : String) (seq seq' : ℕ)
    → IsQueueing es held incident congestion
    → e.msg ≡ traffic_interval_report lns seq
    → is_nonempty held ≡ true
    → q.at ≡ e.at
    → q.msg ≡ queue_state_changed zone (queue_seconds q.at incident) incident seq'
    → IsQueueing ((es ++ e ∷ []) ++ q ∷ []) held incident none
reported none e q lns zone seq seq' h f g a m = let (_, at) = started h g in absurd (cc)
reported (some start) e q lns zone seq seq' h f g a m =
    behind_incident e q lns zone start _ seq seq' h f g a m (queue_seconds-IsDuration q.at start)
