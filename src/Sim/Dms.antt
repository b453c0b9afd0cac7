-- ===== src/Sim/Dms.antt =====
-- internal/sim/dms.go: a dynamic message sign. The mode strings are the constants of the file, and
-- `unknown`, which stands only in the first event.
pub mod Modes
pub mod History
pub mod Advisory
use vikasa_demo.Base.{
  ℕ, ◌+◌, ◌*◌, String, Bool, true, false, not, ◌&&◌, ◌||◌, Option, none, some, List, [], ◌∷◌, ◌++◌,
  if◌then◌else◌, every, str_append,
}
use vikasa_demo.Sim.Emitter.{second, u64, Emission, Out, emit}
use vikasa_demo.Sim.Runtime.{Runtime}
use vikasa_demo.Sim.Demand.{Demand, congestion_level}

pub data Mode : Type 0 where
  unknown normal advisory : Mode

abbrev pub is_normal : Mode → Bool
is_normal normal = true
is_normal _ = false

abbrev pub is_advisory : Mode → Bool
is_advisory advisory = true
is_advisory _ = false

abbrev pub dms_periodic_reassert_period : ℕ
dms_periodic_reassert_period = 100 * second

pub record DmsModeEvent : Type 0 where
  pub prior : Mode
  pub current : Mode
  pub reason : String

pub record DmsFaultEvent : Type 0 where
  pub id : String
  pub raised : Bool

pub data DmsMsg : Type 0 where
  mode_changed : (event : DmsModeEvent) (sequence : ℕ) → DmsMsg
  fault_raised : (fault_id : String) (description : String) (sequence : ℕ) → DmsMsg
  fault_cleared : (fault_id : String) (sequence : ℕ) → DmsMsg

pub record Dms : Type 0 where
  pub controller : String
  pub seq : ℕ  -- uint64
  pub mode : Mode
  pub scripted : Bool
  pub auto_advisory : Bool
  pub started : Bool
  pub next_periodic : ℕ
  pub pending_modes : List DmsModeEvent
  pub pending_faults : List DmsFaultEvent

unfoldable pub new_dms : String → Dms
new_dms controller = record {
  controller = controller;
  seq = 0;
  mode = normal;
  scripted = false;
  auto_advisory = false;
  started = false;
  next_periodic = 0;
  pending_modes = [];
  pending_faults = [];
}

-- queue a ModeChanged and switch to its mode
abbrev pub switch : Mode → String → Dms → Dms
switch m why d = record d {
  pending_modes = d.pending_modes ++ record { prior = d.mode; current = m; reason = why } ∷ [];
  mode = m;
}

unfoldable pub post_advisory : Dms → Dms
post_advisory d =
    let d' = record d { scripted = true; auto_advisory = false } in
    if is_advisory d.mode then d' else switch advisory "advisory-posted" d'

unfoldable pub clear_advisory : Dms → Dms
clear_advisory d =
    let d' = record d { scripted = false } in
    if is_normal d.mode then d' else switch normal "advisory-cleared" d'

unfoldable pub inject_fault : String → Dms → Dms
inject_fault id d = record d {
  pending_faults = d.pending_faults ++ record { id = id; raised = true } ∷ [];
}

unfoldable pub clear_fault : String → Dms → Dms
clear_fault id d = record d {
  pending_faults = d.pending_faults ++ record { id = id; raised = false } ∷ [];
}

-- The first-tick part of `Tick`.
unfoldable pub start : ℕ → Dms → Dms
start now d = if d.started then d else record d {
  started = true;
  pending_modes =
      record { prior = unknown; current = normal; reason = "startup" } ∷ d.pending_modes;
  next_periodic = now + dms_periodic_reassert_period;
}

abbrev pub congestion_ahead : Dms → Dms
congestion_ahead d = record (switch advisory "congestion ahead" d) { auto_advisory = true }

abbrev pub congestion_cleared : Dms → Dms
congestion_cleared d = record (switch normal "congestion cleared" d) { auto_advisory = false }

-- `checkCongestion` behind its guard, with the answer of its comparison.
unfoldable pub follow_congestion : Bool → Dms → Dms
follow_congestion congested d =
    if congested && is_normal d.mode
    then congestion_ahead d
    else if not congested && d.auto_advisory
    then congestion_cleared d
    else d

unfoldable pub fire_periodic : ℕ → Dms → Dms
fire_periodic now d =
    let (next, queue) =
      every dms_periodic_reassert_period
        (λ at q. q ++ record { prior = d.mode; current = d.mode; reason = "periodic" } ∷ []) now
        d.next_periodic d.pending_modes in
    record d { next_periodic = next; pending_modes = queue }

-- the loop of `fireModes`
unfoldable pub send_modes : ℕ → List DmsModeEvent → Out Dms DmsMsg → Out Dms DmsMsg
send_modes now [] o = o
send_modes now (me ∷ rest) o =
    let seq = u64 (o.dev.seq + 1) in
    send_modes now rest (record {
      dev = record o.dev { seq = seq };
      sent = emit o.sent (record {
        controller = o.dev.controller;
        ce_type = "vikasa.dms.mode-changed.v1";
        at = now;
        msg = mode_changed me seq;
      });
    })

unfoldable pub fire_modes : ℕ → Out Dms DmsMsg → Out Dms DmsMsg
unfolding send_modes
fire_modes now o =
    let o' = send_modes now o.dev.pending_modes o in
    record o' { dev = record o'.dev { pending_modes = [] } }

unfoldable pub fault_msg : DmsFaultEvent → ℕ → DmsMsg
fault_msg fe seq =
    if fe.raised
    then fault_raised fe.id (str_append "DMS fault: " fe.id) seq
    else fault_cleared fe.id seq

unfoldable pub send_faults : ℕ → List DmsFaultEvent → Out Dms DmsMsg → Out Dms DmsMsg
unfolding fault_msg
send_faults now [] o = o
send_faults now (fe ∷ rest) o =
    let seq = u64 (o.dev.seq + 1) in
    send_faults now rest (record {
      dev = record o.dev { seq = seq };
      sent = emit o.sent (record {
        controller = o.dev.controller;
        ce_type = if fe.raised then "vikasa.dms.fault-raised.v1" else "vikasa.dms.fault-cleared.v1";
        at = now;
        msg = fault_msg fe seq;
      });
    })

unfoldable pub fire_faults : ℕ → Out Dms DmsMsg → Out Dms DmsMsg
unfolding send_faults
fire_faults now o =
    let o' = send_faults now o.dev.pending_faults o in
    record o' { dev = record o'.dev { pending_faults = [] } }

module _ (N : Runtime) where
  -- `none` is the nil demand
  unfoldable pub check_congestion : Option (Demand N) → ℕ → Dms → Dms
  unfolding follow_congestion
  check_congestion none now d = d
  check_congestion (some demand) now d =
      if d.scripted
      then d
      else follow_congestion (N.le (N.lit 5 10) (congestion_level N demand now)) d

  unfoldable pub tick : Option (Demand N) → ℕ → Out Dms DmsMsg → Out Dms DmsMsg
  tick demand now o = fire_faults now (
      fire_modes now
        (record o { dev = fire_periodic now (check_congestion demand now (start now o.dev)) }))
