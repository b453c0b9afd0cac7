-- ===== src/Sim/Asc/Ticks.antt =====
-- What whole ticks of internal/sim/asc.go do to the phases, flash included.
use mathlib.Core.Path.{subst}
use vikasa_demo.Base.{
  ℕ, ◌+◌, ◌-◌, ◌<◌, ◌≡◌, ◌≢◌, refl, sym, ap, ◌∙◌, true, false, arith, if-cases, is_nonempty,
  if◌then◌else◌,
}
use vikasa_demo.Sim.Runtime.{Runtime}
use vikasa_demo.Sim.Asc.State.{Light, unlit, green, yellow, red, Asc, Controller, flashing}
use vikasa_demo.Sim.Asc.View.{View, view, view-fire_faults, view-fire_status, view-fire_arrivals}
use vikasa_demo.Sim.Asc.Phases.{catch_up-future, catch_up-done, green_sec_pos}
use vikasa_demo.Sim.Asc.{
  Street, state_dur, start, resume_from_flash, settle_flash, sense, catch_up, cycle, tick,
}

abbrev pub started_unit : ℕ → Controller → Controller
started_unit now u = if u.asc.started then u else start now u

state_dur_pos : (l : Light) (i : ℕ) → l ≢ unlit → 0 < state_dur l i
state_dur_pos green i h = omega (arith, green_sec_pos i)
state_dur_pos yellow i h = omega arith
state_dur_pos red i h = omega arith
state_dur_pos unlit i h = absurd (h refl)

pub settle_flash-state :
    (now : ℕ) (a : Asc)
    → ((settle_flash now a).state ≡ a.state)
      × ((settle_flash now a).idx ≡ a.idx)
      × ((settle_flash now a).started ≡ a.started)
unfolding settle_flash resume_from_flash
settle_flash-state now a = ground arith

settled :
    (now : ℕ) (a : Asc)
    → a.was_flashing ≡ true
    → flashing a ≡ false
    → settle_flash now a ≡ record a {
      state_until = now + state_dur a.state a.idx;
      green_count = 0;
      was_flashing = false;
    }
unfolding settle_flash resume_from_flash
settled now a was fl = ground arith

module _ (N : Runtime) where
  pub view-sense :
      (now : ℕ) (s : Street N) → view (sense N now s).unit ≡ view (started_unit now s.unit)
  unfolding sense
  view-sense now s = view-fire_status now _ ∙ view-fire_arrivals N now _ ∙ view-fire_faults now _

  view-sense_started :
      (now : ℕ) (s : Street N) → s.unit.asc.started ≡ true → view (sense N now s).unit ≡ view s.unit
  view-sense_started now s h =
      view-sense now s ∙ ap (λ b. view (if b then s.unit else start now s.unit)) h

  cycle-flashing :
      (now : ℕ) (s : Street N)
      → flashing s.unit.asc ≡ true
      → view (cycle N now s).unit ≡ record (view s.unit) { was_flashing = true }
  unfolding cycle settle_flash
  cycle-flashing now s fl = ground arith

  cycle_resumes :
      (now : ℕ) (s : Street N)
      → s.unit.asc.state ≢ unlit
      → s.unit.asc.was_flashing ≡ true
      → flashing s.unit.asc ≡ false
      → view (cycle N now s).unit ≡ record (view s.unit) {
        state_until = now + state_dur s.unit.asc.state s.unit.asc.idx;
        was_flashing = false;
      }
  unfolding cycle settle_flash resume_from_flash
  cycle_resumes now s lit was fl =
      let s' : Street N = record s { unit = record s.unit { asc = settle_flash now s.unit.asc } } in
      let e = settled now s.unit.asc was fl in
      let d = state_dur_pos s.unit.asc.state s.unit.asc.idx lit in
      if-cases
        (λ (t : Street N). view t.unit ≡ record (view s.unit) {
          state_until = now + state_dur s.unit.asc.state s.unit.asc.idx;
          was_flashing = false;
        })
        (flashing s.unit.asc) s' (catch_up N (now + 1 - s'.unit.asc.state_until) now s') (λ t. cc)
        (λ _.
          ap (λ (t : Street N). view t.unit)
            (catch_up-done N _ now s' (omega (arith, ap (λ (a : Asc). a.state_until) e, d)))
          ∙ ap (λ (a : Asc). view (record s.unit { asc = a })) e)

  -- While a fault is raised a started controller announces no phase change, and its phase, its state
  -- and its deadline stay.
  pub tick-flashing :
      (now : ℕ) (s : Street N)
      → s.unit.asc.started ≡ true
      → flashing s.unit.asc ≡ true
      → view (tick N now s).unit ≡ record (view s.unit) { was_flashing = true }
  unfolding tick
  tick-flashing now s st fl =
      let e = view-sense_started now s st in
      cycle-flashing now (sense N now s) (ap (λ (v : View). is_nonempty v.faults) e ∙ fl)
      ∙ ap (λ (v : View). record v { was_flashing = true }) e

  -- The first tick after the last fault has cleared announces no phase change either: the state that
  -- flash interrupted starts anew, for its whole duration.
  pub tick_resumes :
      (now : ℕ) (s : Street N)
      → s.unit.asc.started ≡ true
      → s.unit.asc.state ≢ unlit
      → s.unit.asc.was_flashing ≡ true
      → flashing s.unit.asc ≡ false
      → view (tick N now s).unit ≡ record (view s.unit) {
        state_until = now + state_dur s.unit.asc.state s.unit.asc.idx;
        was_flashing = false;
      }
  unfolding tick
  tick_resumes now s st lit was fl =
      let e = view-sense_started now s st in
      cycle_resumes now (sense N now s) (subst (λ (v : View). v.state ≢ unlit) (sym e) lit)
        (ap (λ (v : View). v.was_flashing) e ∙ was) (ap (λ (v : View). is_nonempty v.faults) e ∙ fl)
      ∙ ap
          (λ (v : View). record v {
            state_until = now + state_dur v.state v.idx;
            was_flashing = false;
          })
          e

  cycle_caught_up :
      (now : ℕ) (s : Street N)
      → s.unit.asc.state ≢ unlit
      → flashing s.unit.asc ≡ false
      → now < (cycle N now s).unit.asc.state_until
  unfolding cycle
  cycle_caught_up now s lit fl =
      let s' : Street N = record s { unit = record s.unit { asc = settle_flash now s.unit.asc } } in
      if-cases (λ (t : Street N). now < t.unit.asc.state_until) (flashing s.unit.asc) s'
        (catch_up N (now + 1 - s'.unit.asc.state_until) now s') (λ t. cc)
        (λ _.
          catch_up-future N _ now s'
            (subst (λ l. l ≢ unlit) (sym (settle_flash-state now s.unit.asc).0) lit) (omega arith))

  -- A tick of a started controller with no fault leaves no phase overdue.
  pub tick_caught_up :
      (now : ℕ) (s : Street N)
      → s.unit.asc.started ≡ true
      → s.unit.asc.state ≢ unlit
      → flashing s.unit.asc ≡ false
      → now < (tick N now s).unit.asc.state_until
  unfolding tick
  tick_caught_up now s st lit fl =
      let e = view-sense_started now s st in
      cycle_caught_up now (sense N now s) (subst (λ (v : View). v.state ≢ unlit) (sym e) lit)
        (ap (λ (v : View). is_nonempty v.faults) e ∙ fl)
