-- ===== src/Sim/Reversible.antt =====
-- internal/sim/reversible.go: the scheduled reversible express lane. The names of the generated
-- enums are those of the protocol, with the zero value that a new device has.
pub mod Schedule
use vikasa_demo.Base.{
  ℕ, ◌+◌, ◌-◌, ◌*◌, String, List, [], Bool, true, false, ◌||◌, not, leb, if◌then◌else◌,
}
use vikasa_demo.Sim.Emitter.{second, u64, Emission, Out, emit}

abbrev pub rev_open_dur : ℕ
rev_open_dur = 120 * second

abbrev pub rev_transition_dur : ℕ
rev_transition_dur = 20 * second

abbrev pub rev_keepalive : ℕ
rev_keepalive = 20 * second

pub data LaneFlowState : Type 0 where
  unspecified lane_open in_transition : LaneFlowState

pub data TravelDirection : Type 0 where
  undirected northbound southbound : TravelDirection

abbrev pub same_state : LaneFlowState → LaneFlowState → Bool
same_state unspecified unspecified = true
same_state lane_open lane_open = true
same_state in_transition in_transition = true
same_state _ _ = false

abbrev pub same_direction : TravelDirection → TravelDirection → Bool
same_direction undirected undirected = true
same_direction northbound northbound = true
same_direction southbound southbound = true
same_direction _ _ = false

pub record LaneStateChanged : Type 0 where
  pub kind : String
  pub previous_state : LaneFlowState
  pub previous_direction : TravelDirection
  pub new_state : LaneFlowState
  pub new_direction : TravelDirection
  pub initiated_by : String
  pub source_device_id : String
  pub sequence : ℕ  -- uint64

pub record ReversibleLane : Type 0 where
  pub controller : String
  pub started : Bool
  pub phase_start : ℕ
  pub last_emit : ℕ
  pub state : LaneFlowState
  pub direction : TravelDirection
  pub seq : ℕ  -- uint64

unfoldable pub new_reversible_lane : String → ReversibleLane
new_reversible_lane controller = record {
  controller = controller;
  started = false;
  phase_start = 0;
  last_emit = 0;
  state = unspecified;
  direction = undirected;
  seq = 0;
}

abbrev pub reason : LaneFlowState → TravelDirection → String
reason in_transition _ = "schedule-transition"
reason _ northbound = "schedule-am-inbound"
reason _ _ = "schedule-pm-outbound"

abbrev pub Lane : Type 0
Lane = Out ReversibleLane LaneStateChanged

unfoldable pub send : ℕ → LaneFlowState → TravelDirection → String → Lane → Lane
send now prev_state prev_dir initiated_by o =
    let r = o.dev in
    let seq = u64 (r.seq + 1) in
    record {
      dev = record r { seq = seq; last_emit = now };
      sent = emit o.sent (record {
        controller = r.controller;
        ce_type = "vikasa.reversible-lane.lane-state-changed.v1";
        at = now;
        msg = record {
          kind = "lane-state-changed";
          previous_state = prev_state;
          previous_direction = prev_dir;
          new_state = r.state;
          new_direction = r.direction;
          initiated_by = initiated_by;
          source_device_id = r.controller;
          sequence = seq;
        };
      });
    }

-- the direction that a reopening lane has
abbrev pub opposite : TravelDirection → TravelDirection
opposite northbound = southbound
opposite _ = northbound

-- The `switch` of `Tick`. Where `now` is before `phaseStart` Go's difference is negative and the
-- truncated one is 0, and neither reaches a duration.
unfoldable pub advance : ℕ → LaneFlowState → ReversibleLane → ReversibleLane
advance now lane_open r =
    if leb rev_open_dur (now - r.phase_start)
    then record r { state = in_transition; phase_start = now }
    else r
advance now in_transition r =
    if leb rev_transition_dur (now - r.phase_start)
    then record r { state = lane_open; direction = opposite r.direction; phase_start = now }
    else r
advance now unspecified r = r

unfoldable pub tick : ℕ → Lane → Lane
unfolding send advance
tick now o =
    if not o.dev.started
    then send now lane_open northbound (reason lane_open northbound) (record o {
      dev = record o.dev {
        started = true;
        phase_start = now;
        state = lane_open;
        direction = northbound;
      };
    })
    else let r = advance now o.dev.state o.dev in
      let o' = record o { dev = r } in
      if not (same_state r.state o.dev.state) || not (same_direction r.direction o.dev.direction)
      then send now o.dev.state o.dev.direction (reason r.state r.direction) o'
      else if leb rev_keepalive (now - r.last_emit)
      then send now o.dev.state o.dev.direction "schedule-keepalive" o'
      else o'
