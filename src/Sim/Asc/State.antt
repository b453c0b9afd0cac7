-- ===== src/Sim/Asc/State.antt =====
-- internal/sim/asc.go: the state of the signal controller, its messages and the hooks of the
-- scenarios. The time `OccurredAt` of a message is the time of its emission.
use vikasa_demo.Base.{
  ℕ, zero, suc, ◌+◌, ◌*◌, String, Bool, true, false, Option, none, List, [], ◌∷◌, ◌++◌, Dict, put,
  remove, is_nonempty, string_eq, ℤ, pos, negsuc,
}
use vikasa_demo.Sim.Emitter.{second, u64, Emission, emit}
use vikasa_demo.Sim.Asc.Plan.{PhaseDef}

abbrev pub yellow_sec : ℕ
yellow_sec = 3

abbrev pub all_red_sec : ℕ
all_red_sec = 2

abbrev pub presence_dur : ℕ
presence_dur = 1_500_000_000

abbrev pub status_period : ℕ
status_period = 60 * second

abbrev pub ped_coord_cycles : ℕ
ped_coord_cycles = 5

-- the state strings, and the empty one of a new controller
pub data Light : Type 0 where
  unlit green yellow red : Light

pub data Reason : Type 0 where
  no_reason gap_out max_out : Reason

pub record FaultEvent : Type 0 where
  pub id : String
  pub raised : Bool

pub data AscMsg : Type 0 where
  phase_state_change : (phase : ℕ) (to_state : Light) (reason : Reason) (sequence : ℕ) → AscMsg
  detector_transition :
      (channel : ℕ) (is_on : Bool) (approach : String) (phase_served sequence : ℕ) → AscMsg
  operational_status_report : (mode : String) (flash_active : Bool) (sequence : ℕ) → AscMsg
  controller_fault_event :
      (fault_id : String) (raised : Bool) (flash_cause : String) (sequence : ℕ) → AscMsg
  pedestrian_event : (phase channel sequence : ℕ) → AscMsg
  coordination_change : (split previous_value new_value sequence : ℕ) → AscMsg

pub record Asc : Type 0 where
  pub controller : String
  pub seq : ℕ  -- uint64
  pub started : Bool
  pub idx : ℕ
  pub state : Light
  pub state_until : ℕ
  pub green_count : ℕ
  pub cycles : ℕ
  pub was_flashing : Bool
  pub ped_cadence_mult : ℤ
  pub next_arrival : Option ℕ
  pub arrival_idx : ℕ
  pub pending_off : Dict ℕ ℕ
  pub next_status : Option ℕ
  pub faults : Dict String Bool
  pub pending_faults : List FaultEvent

unfoldable pub new_asc : String → Asc
new_asc controller = record {
  controller = controller;
  seq = 0;
  started = false;
  idx = 0;
  state = unlit;
  state_until = 0;
  green_count = 0;
  cycles = 0;
  was_flashing = false;
  ped_cadence_mult = pos 0;
  next_arrival = none;
  arrival_idx = 0;
  pending_off = [];
  next_status = none;
  faults = [];
  pending_faults = [];
}

unfoldable pub inject_fault : String → Asc → Asc
inject_fault id a = record a {
  faults = put id true a.faults;
  pending_faults = a.pending_faults ++ record { id = id; raised = true } ∷ [];
}

unfoldable pub clear_fault : String → Asc → Asc
clear_fault id a = record a {
  faults = remove id a.faults;
  pending_faults = a.pending_faults ++ record { id = id; raised = false } ∷ [];
}

unfoldable pub set_ped_cadence_multiplier : ℤ → Asc → Asc
set_ped_cadence_multiplier m a = record a { ped_cadence_mult = m }

abbrev pub flashing : Asc → Bool
flashing a = is_nonempty a.faults

-- a multiplier of at most 0 is 1
abbrev pub cadence : ℤ → ℕ
cadence (pos (suc n)) = suc n
cadence (pos zero) = 1
cadence (negsuc n) = 1

-- The controller with the events that it has sent.
pub record Controller : Type 0 where
  pub asc : Asc
  pub sent : List (Emission AscMsg)

-- `em.Emit` of a message with the next sequence number
unfoldable pub send : ℕ → String → (ℕ → AscMsg) → Controller → Controller
send at ce_type msg u =
    let seq = u64 (u.asc.seq + 1) in
    record {
      asc = record u.asc { seq = seq };
      sent =
          emit u.sent
            (record { controller = u.asc.controller; ce_type = ce_type; at = at; msg = msg seq });
    }

unfoldable pub emit_phase : ℕ → Light → Reason → ℕ → Controller → Controller
emit_phase phase to_state reason at =
    send at "vikasa.signal-control.phase-state-change.v1" (phase_state_change phase to_state reason)

unfoldable pub emit_detector : PhaseDef → Bool → ℕ → Controller → Controller
emit_detector ph is_on at =
    send at "vikasa.signal-control.detector-transition.v1"
      (detector_transition ph.channel is_on ph.approach ph.number)
