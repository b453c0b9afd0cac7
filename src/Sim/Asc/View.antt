-- ===== src/Sim/Asc/View.antt =====
-- What the phases of internal/sim/asc.go depend on, and that the sensors leave it alone.
use vikasa_demo.Base.{
  ℕ, zero, suc, ◌+◌, ◌-◌, ◌≡◌, refl, sym, ap, ◌∙◌, Bool, true, false, Option, none, some, List, [],
  ◌∷◌, ◌++◌, append-nil, append_assoc, arith, ltb, if-cases, Bool-cases, inl, inr, Dict, String,
  every_inv, get, nat_eq,
}
use vikasa_demo.Sim.Emitter.{u64, Emission}
use vikasa_demo.Sim.Runtime.{Runtime}
use vikasa_demo.Sim.Asc.Plan.{phase_at, PhaseDef}
use vikasa_demo.Sim.Asc.State.{
  Light, FaultEvent, AscMsg, phase_state_change, status_period, Controller, send, emit_detector,
}
use vikasa_demo.Sim.Asc.Sensors.{
  turn_off, arrive, expire, send_faults, fire_faults, send_status, fire_status,
}
use vikasa_demo.Sim.Asc.{Street, arrivals, fire_arrivals}

-- the phase and the state of a phase change
abbrev pub phase_entry : AscMsg → List (ℕ × Light)
phase_entry (phase_state_change phase to_state _ _) = (phase, to_state) ∷ []
phase_entry _ = []

abbrev pub phase_log : List (Emission AscMsg) → List (ℕ × Light)
phase_log [] = []
phase_log (e ∷ es) = phase_entry e.msg ++ phase_log es

pub phase_log-append :
    (es fs : List (Emission AscMsg)) → phase_log (es ++ fs) ≡ phase_log es ++ phase_log fs
phase_log-append [] fs = refl
phase_log-append (e ∷ es) fs =
    ap (λ x. phase_entry e.msg ++ x) (phase_log-append es fs)
    ∙ sym (append_assoc (phase_entry e.msg) (phase_log es) (phase_log fs))

pub record View : Type 0 where
  pub started : Bool
  pub idx : ℕ
  pub state : Light
  pub state_until : ℕ
  pub was_flashing : Bool
  pub faults : Dict String Bool
  pub log : List (ℕ × Light)

abbrev pub view : Controller → View
view u = record {
  started = u.asc.started;
  idx = u.asc.idx;
  state = u.asc.state;
  state_until = u.asc.state_until;
  was_flashing = u.asc.was_flashing;
  faults = u.asc.faults;
  log = phase_log u.sent;
}

-- A message is appended to the log if it is a phase change.
pub view-send :
    (at : ℕ) (ce_type : String) (msg : ℕ → AscMsg) (entry : List (ℕ × Light)) (u : Controller)
    → ((seq : ℕ) → phase_entry (msg seq) ≡ entry)
    → view (send at ce_type msg u) ≡ record (view u) { log = phase_log u.sent ++ entry }
unfolding send
view-send at ce_type msg entry u h =
    ap (λ x. record (view u) { log = x })
      (phase_log-append u.sent _
        ∙ ap (λ x. phase_log u.sent ++ x) (append-nil _ ∙ h (u64 (u.asc.seq + 1))))

pub view-send_other :
    (at : ℕ) (ce_type : String) (msg : ℕ → AscMsg) (u : Controller)
    → ((seq : ℕ) → phase_entry (msg seq) ≡ [])
    → view (send at ce_type msg u) ≡ view u
view-send_other at ce_type msg u h =
    view-send at ce_type msg [] u h ∙ ap (λ x. record (view u) { log = x }) (append-nil _)

view-send_faults :
    (now : ℕ) (fs : List FaultEvent) (u : Controller) → view (send_faults now fs u) ≡ view u
unfolding send_faults
view-send_faults now [] u = refl
view-send_faults now (fe ∷ fs) u =
    view-send_faults now fs _ ∙ view-send_other now _ _ u (λ seq. refl)

pub view-fire_faults : (now : ℕ) (u : Controller) → view (fire_faults now u) ≡ view u
unfolding fire_faults
view-fire_faults now u = view-send_faults now u.asc.pending_faults u

pub view-fire_status : (now : ℕ) (u : Controller) → view (fire_status now u) ≡ view u
unfolding fire_status send_status
view-fire_status now u =
    every_inv status_period _ (omega arith) (λ (v : Controller). view v ≡ view u)
      (λ at v h. view-send_other at _ _ v (λ seq. refl) ∙ h) now _ u refl

view-emit_detector :
    (ph : PhaseDef) (is_on : Bool) (at : ℕ) (u : Controller)
    → view (emit_detector ph is_on at u) ≡ view u
unfolding emit_detector
view-emit_detector ph is_on at u = view-send_other at _ _ u (λ seq. refl)

view-turn_off : (ph : PhaseDef) (o : Option ℕ) (u : Controller) → view (turn_off ph o u) ≡ view u
view-turn_off ph none u = refl
view-turn_off ph (some off) u = view-emit_detector ph false off u

view-arrive : (at : ℕ) (u : Controller) → view (arrive at u) ≡ view u
unfolding arrive
view-arrive at u = view-emit_detector _ true at _ ∙ view-turn_off _ (get _ u.asc.pending_off) _

view-expire : (now : ℕ) (os : List (ℕ × ℕ)) (u : Controller) → view (expire now os u) ≡ view u
unfolding expire
view-expire now [] u = refl
view-expire now ((ch, off) ∷ os) u =
    view-expire now os _
    ∙ if-cases (λ v. view v ≡ view u) (ltb now off) u _ (λ _. refl)
        (λ _. view-emit_detector (phase_at (ch - 1)) false off u)

module _ (N : Runtime) where
  view-arrivals :
      (fuel now next : ℕ) (s : Street N) → view (arrivals N fuel now next s).1.unit ≡ view s.unit
  unfolding arrivals
  view-arrivals zero now next s = refl
  view-arrivals (suc fuel) now next s = elim (Bool-cases (ltb now next)) [
    | inl e ↦ rw (e, arrivals)
    | inr e ↦ rw (e, arrivals) (view-arrivals fuel now _ _ ∙ view-arrive next s.unit)
  ]

  pub view-fire_arrivals :
      (now : ℕ) (s : Street N) → view (fire_arrivals N now s).unit ≡ view s.unit
  unfolding fire_arrivals
  view-fire_arrivals now s = view-expire now _ _ ∙ view-arrivals _ now _ _
