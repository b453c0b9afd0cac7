-- ===== src/Sim/Cabinet/Runs.antt =====
-- What a cabinet (cmd/cabinet-sim) emits while it is ticked and scenarios are posted and cleared, as
-- internal/events wraps it.
use vikasa_demo.Base.{
  ℕ, ◌≡◌, refl, ◌∙◌, String, Bool, true, false, Option, none, some, List, [], ◌∷◌, ◌++◌, ok, get,
  string_eq, All-append, All-of_append, if-cases, str_append, join,
}
use vikasa_demo.Sim.Emitter.{Emission}
use vikasa_demo.Sim.Runtime.{Runtime}
use vikasa_demo.Sim.Scenario.{
  Devices, Kind, conflict_flash, detector_fault, corridor_incident, ped_surge, kind_of, started,
  scenario, inject_scenario, clear_scenario,
}
use vikasa_demo.Sim.Asc.State.{new_asc}
use vikasa_demo.Sim.Camera.{new_camera}
use vikasa_demo.Sim.Lidar.{new_lidar}
use vikasa_demo.Sim.Dms.{
  Dms, normal, advisory, is_normal, is_advisory, switch, post_advisory, clear_advisory, new_dms,
}
use vikasa_demo.Sim.Gateway.{new_gateway}
use vikasa_demo.Sim.Reversible.{new_reversible_lane}
use vikasa_demo.Events.Subject.{is_token, subject, check_tokens}
use vikasa_demo.Events.Wire.{Wire}
use vikasa_demo.Events.Envelope.{Envelope, new_envelope, slash}
use vikasa_demo.Sink.Decoder.{Decoder}
use vikasa_demo.Sink.Handlers.{Handler}
use vikasa_demo.Sink.Registry.{registry}
use vikasa_demo.Sim.Cabinet.{
  CabinetMsg, new_devices, Happening, ticked, posted, expired, happen, emitted, inject, devices_or,
}
use vikasa_demo.Sim.Cabinet.Served.{Sent, AreNamed, tick_all-AreNamed}

module _ (D : Decoder) (N : Runtime) where
  post-controller : (d : Dms) → (post_advisory d).controller ≡ d.controller
  unfolding post_advisory
  post-controller d =
      let d' = record d { scripted = true; auto_advisory = false } in
      if-cases (λ (x : Dms). x.controller ≡ d.controller) (is_advisory d.mode) d'
        (switch advisory "advisory-posted" d') (λ _. refl) (λ _. refl)

  clear-controller : (d : Dms) → (clear_advisory d).controller ≡ d.controller
  unfolding clear_advisory
  clear-controller d =
      let d' = record d { scripted = false } in
      if-cases (λ (x : Dms). x.controller ≡ d.controller) (is_normal d.mode) d'
        (switch normal "advisory-cleared" d') (λ _. refl) (λ _. refl)

  inject_scenario-AreNamed :
      (k : Kind) (s : Devices N) → AreNamed D N s → AreNamed D N (inject_scenario N k s)
  unfolding inject_scenario vikasa_demo.Sim.Asc.State.inject_fault
      vikasa_demo.Sim.Asc.State.set_ped_cadence_multiplier vikasa_demo.Sim.Camera.inject_incident
      vikasa_demo.Sim.Lidar.inject_incident
  inject_scenario-AreNamed conflict_flash s h = h
  inject_scenario-AreNamed detector_fault s h = h
  inject_scenario-AreNamed corridor_incident s (a, c1, c2, l, m, g, r) =
      (a, c1, c2, l, post-controller s.dms1 ∙ m, g, r)
  inject_scenario-AreNamed ped_surge s h = h

  clear_scenario-AreNamed :
      (k : Kind) (s : Devices N) → AreNamed D N s → AreNamed D N (clear_scenario N k s)
  unfolding clear_scenario vikasa_demo.Sim.Asc.State.clear_fault
      vikasa_demo.Sim.Asc.State.set_ped_cadence_multiplier vikasa_demo.Sim.Camera.clear_incident
      vikasa_demo.Sim.Lidar.clear_incident
  clear_scenario-AreNamed conflict_flash s h = h
  clear_scenario-AreNamed detector_fault s h = h
  clear_scenario-AreNamed corridor_incident s (a, c1, c2, l, m, g, r) =
      (a, c1, c2, l, clear-controller s.dms1 ∙ m, g, r)
  clear_scenario-AreNamed ped_surge s h = h

  started-AreNamed :
      (k : Option Kind) (s : Devices N)
      → AreNamed D N s
      → AreNamed D N (devices_or N s (started N s k))
  started-AreNamed none s h = h
  started-AreNamed (some k) s h = inject_scenario-AreNamed k s h

  happen-AreNamed :
      (h : Happening N) (s : Devices N)
      → AreNamed D N s
      → AreNamed D N (happen N h s).0 × Sent D (happen N h s).1
  unfolding happen inject scenario
  happen-AreNamed (ticked now) s k = tick_all-AreNamed D N now s k
  happen-AreNamed (posted name) s k = (started-AreNamed (kind_of name) s k, tt)
  happen-AreNamed (expired x) s k = (clear_scenario-AreNamed x s k, tt)

  emitted-Sent :
      (hs : List (Happening N)) (s : Devices N) → AreNamed D N s → Sent D (emitted N hs s)
  unfolding emitted
  emitted-Sent [] s k = tt
  emitted-Sent (h ∷ hs) s k =
      let r = happen-AreNamed h s k in
      All-append _ (happen N h s).1 (emitted N hs (happen N h s).0) r.1
        (emitted-Sent hs (happen N h s).0 r.0)

  new_devices-AreNamed :
      (seed : ℕ) (vph : N.F) (rev : Bool) → AreNamed D N (new_devices N seed vph rev)
  unfolding new_devices new_asc new_camera new_lidar new_dms new_gateway new_reversible_lane
  new_devices-AreNamed seed vph true = (refl, refl, refl, refl, refl, refl, refl)
  new_devices-AreNamed seed vph false = (refl, refl, refl, refl, refl, refl, tt)

  -- Whatever happens to a cabinet whose department, district and name are tokens, each event that one
  -- of its devices emits, with a message that can be marshalled, has an envelope, of its type, so that
  -- the publisher does not drop it, and the sink has a handler for the type.
  pub emitted-new_envelope :
      (W : Wire) (dot district cabinet : String) (seed : ℕ) (vph : N.F) (rev : Bool)
      (hs : List (Happening N)) (before after : List (Emission CabinetMsg))
      (e : Emission CabinetMsg) (m : W.Message) (payload : String)
      → is_token dot ≡ true
      → is_token district ≡ true
      → is_token cabinet ≡ true
      → emitted N hs (new_devices N seed vph rev) ≡ before ++ e ∷ after
      → W.marshal m ≡ some payload
      → (env : Envelope) × (new_envelope W dot district cabinet e.controller e.ce_type e.at m
          ≡ ok env)
        × (env.ce_type ≡ e.ce_type)
        × (h : Handler D) × (get env.ce_type (registry D) ≡ some h)
  unfolding new_envelope subject check_tokens
  emitted-new_envelope W dot district cabinet seed vph rev hs before after e m payload a b c at p =
      let all = emitted-Sent hs (new_devices N seed vph rev) (new_devices-AreNamed seed vph rev) in
      let (token, k) = (All-of_append _ before (e ∷ after) (rw at at all)).1.0 in
      let source = str_append "//" (slash dot (slash district (slash cabinet e.controller))) in
      let env : Envelope = record {
        id =
            W.sha256_hex
              (str_append e.ce_type (str_append source (str_append (W.format_time e.at) payload)));
        ce_type = e.ce_type;
        source = source;
        subject =
            str_append "vikasa."
              (join (dot ∷ district ∷ cabinet ∷ k.service ∷ e.controller ∷ k.event ∷ []));
        time = e.at;
        payload = payload;
      } in
      (
        env,
        rw (p, k.routed, a, b, c, k.service_token, token, k.event_token),
        refl,
        k.handler,
        k.handled,
      )
