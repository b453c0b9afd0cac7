-- ===== src/Sim/Scenario/Undo.antt =====
-- The scenarios of internal/sim/scenario.go clear what they have injected.
use mathlib.Core.Path.{subst}
use vikasa_demo.Base.{
  ◌+◌, ◌-◌, ◌*◌, ◌≤◌, ◌≡◌, refl, String, str_eq, Bool, true, false, Option, none, some, arith,
  if◌then◌else◌, get, put, remove, get-put, get-remove, eq_iff, string_eq, Dict,
}
use vikasa_demo.Sim.Emitter.{second}
use vikasa_demo.Sim.Runtime.{Runtime}
use vikasa_demo.Sim.Demand.{Demand, set_incident, add_incident}
use vikasa_demo.Sim.Perception.{Watch, is_raised, inject_watch, clear_watch}
use vikasa_demo.Sim.Camera
use vikasa_demo.Sim.Lidar
use vikasa_demo.Sim.Asc.State.{inject_fault, clear_fault, set_ped_cadence_multiplier}
use vikasa_demo.Sim.Incidents.{held, held-add_incident, held-remove_incident}
use vikasa_demo.Sim.Scenario.{
  corridor_incident_id, Kind, conflict_flash, detector_fault, corridor_incident, ped_surge,
  clear_after, Devices, inject_scenario, clear_scenario, Timer, started, scenario, kind_of,
}

-- A fault that was not raised leaves no trace once it is raised and cleared.
get-remove-put :
    (id j : String) (m : Dict String Bool)
    → get id m ≡ none
    → get j (remove id (put id true m)) ≡ get j m
get-remove-put id j m h =
    ground (arith, h, get-remove id j (put id true m), get-put id j true m, eq_iff id j)

module _ (N : Runtime) where
  inject_quiet :
      (id j : String) (w : Watch) (d : Demand N)
      → is_raised id w ≡ false
      → held N j (inject_watch N id w d).1 ≡ (if str_eq id j then held N j d + 1 else held N j d)
  unfolding inject_watch
  inject_quiet id j w d h = rw h (held-add_incident N id j d)

  clear_injected :
      (id j : String) (w : Watch) (d e : Demand N)
      → held N j (clear_watch N id (inject_watch N id w d).0 e).1
        ≡ (if str_eq id j then held N j e - 1 else held N j e)
  unfolding inject_watch clear_watch
  clear_injected id j w d e =
      let r : is_raised id (inject_watch N id w d).0 ≡ true =
        ground (arith, get-put id id true w.incidents, eq_iff id id) in
      rw r (held-remove_incident N id j e)

  -- No fault of the scenarios is raised, and neither device of theirs holds their incident.
  pub record IsQuiet (s : Devices N) : Type 0 where
    pub flash : get "conflict-flash" s.asc.faults ≡ none
    pub detector : get "detector-fault" s.asc.faults ≡ none
    pub camera : is_raised corridor_incident_id s.cam1.watch ≡ false
    pub lidar : is_raised corridor_incident_id s.lidar1.watch ≡ false

  -- The same incidents counted and the same faults raised.
  abbrev pub AgreesWith : Devices N → Devices N → Type 0
  AgreesWith s t =
      ((j : String) → held N j t.demand ≡ held N j s.demand)
      × ((id : String) → get id t.asc.faults ≡ get id s.asc.faults)

  corridor_undone :
      (j : String) (s : Devices N)
      → IsQuiet s
      → held N j (clear_scenario N corridor_incident (inject_scenario N corridor_incident s)).demand
        ≡ held N j s.demand
  unfolding clear_scenario inject_scenario vikasa_demo.Sim.Camera.inject_incident
      vikasa_demo.Sim.Camera.clear_incident vikasa_demo.Sim.Lidar.inject_incident
      vikasa_demo.Sim.Lidar.clear_incident set_incident
  corridor_undone j s q =
      let i = corridor_incident_id in
      let d0 = add_incident N "_manual" s.demand in
      let c = inject_watch N i s.cam1.watch d0 in
      let l = inject_watch N i s.lidar1.watch c.1 in
      let d3 = (clear_watch N i c.0 l.1).1 in
      let d4 = (clear_watch N i l.0 d3).1 in
      ground (
        arith,
        held-add_incident N "_manual" j s.demand,
        inject_quiet i j s.cam1.watch d0 q.camera,
        inject_quiet i j s.lidar1.watch c.1 q.lidar,
        clear_injected i j s.cam1.watch d0 l.1,
        clear_injected i j s.lidar1.watch c.1 d3,
        held-remove_incident N "_manual" j d4,
      )

  kind_undone :
      (k : Kind) (s : Devices N)
      → IsQuiet s
      → AgreesWith s (clear_scenario N k (inject_scenario N k s))
  unfolding clear_scenario inject_scenario inject_fault clear_fault set_ped_cadence_multiplier
  kind_undone conflict_flash s q =
      ((λ j. refl), (λ id. get-remove-put "conflict-flash" id s.asc.faults q.flash))
  kind_undone detector_fault s q =
      ((λ j. refl), (λ id. get-remove-put "detector-fault" id s.asc.faults q.detector))
  kind_undone corridor_incident s q = ((λ j. corridor_undone j s q), (λ id. refl))
  kind_undone ped_surge s q = ((λ j. refl), (λ id. refl))

  clear_after_bound : (k : Kind) → clear_after k ≤ 120 * second
  clear_after_bound conflict_flash = omega arith
  clear_after_bound detector_fault = omega arith
  clear_after_bound corridor_incident = omega arith
  clear_after_bound ped_surge = omega arith

  started_undone :
      (s s' : Devices N) (t : Timer N) (o : Option Kind)
      → IsQuiet s
      → started N s o ≡ some (s', t)
      → AgreesWith s (clear_scenario N t.clears s') × (t.after ≤ 120 * second)
  started_undone s s' t none q h = absurd (cc)
  started_undone s s' t (some k) q h =
      let timer : Timer N = record { after = clear_after k; clears = k } in
      let e : ◌≡◌ {A = Devices N × Timer N} (inject_scenario N k s, timer) (s', t) = cc in
      subst
        (λ (r : Devices N × Timer N).
          AgreesWith s (clear_scenario N r.1.clears r.0) × (r.1.after ≤ 120 * second))
        e (kind_undone k s q, clear_after_bound k)

  -- A scenario that is injected into a quiet cabinet and cleared again, which comes due after two
  -- minutes at the latest, leaves the cabinet with the incidents counted and the faults raised that it
  -- had before.
  pub scenario_undone :
      (name : String) (s s' : Devices N) (t : Timer N)
      → IsQuiet s
      → scenario N name s ≡ some (s', t)
      → AgreesWith s (clear_scenario N t.clears s') × (t.after ≤ 120 * second)
  unfolding scenario
  scenario_undone name s s' t q h = started_undone s s' t (kind_of name) q h
