-- ===== src/Sim/Dms/History.antt =====
-- The mode events that a sign of internal/sim/dms.go has sent, over every sequence of calls.
use mathlib.Core.Path.{subst₂}
use vikasa_demo.Base.{
  ℕ, ◌+◌, ◌≡◌, refl, sym, ap, ◌∙◌, String, true, Option, none, some, List, [], ◌∷◌, ◌++◌,
  append-nil, append_assoc, arith,
}
use vikasa_demo.Sim.Emitter.{u64, Out}
use vikasa_demo.Sim.Runtime.{Runtime}
use vikasa_demo.Sim.Demand.{Demand}
use vikasa_demo.Sim.Dms.{
  unknown, DmsModeEvent, DmsFaultEvent, DmsMsg, Dms, new_dms, post_advisory, clear_advisory,
  inject_fault, clear_fault, start, follow_congestion, fire_periodic, send_modes, fire_modes,
  fault_msg, send_faults, fire_faults, check_congestion, tick,
}
use vikasa_demo.Sim.Dms.Modes.{
  Chain, mode_event, mode_events, mode_events-append, TellsOf, IsTold, start-Tells, check-Tells,
  fire_periodic-Tells, post-Tells, clear-Tells,
}

send_modes_lem :
    (now : ℕ) (es : List DmsModeEvent) (o : Out Dms DmsMsg)
    → (mode_events (send_modes now es o).sent ≡ mode_events o.sent ++ es)
      × ((send_modes now es o).dev.mode ≡ o.dev.mode)
      × ((send_modes now es o).dev.started ≡ o.dev.started)
unfolding send_modes
send_modes_lem now [] o = (sym (append-nil _), refl, refl)
send_modes_lem now (e ∷ es) o =
    let (sent, mode, started) = send_modes_lem now es _ in
    (
      sent
          ∙ ap (λ x. x ++ es) (mode_events-append o.sent _)
          ∙ append_assoc (mode_events o.sent) (e ∷ []) es,
      mode,
      started,
    )

send_faults_lem :
    (now : ℕ) (es : List DmsFaultEvent) (o : Out Dms DmsMsg)
    → (mode_events (send_faults now es o).sent ≡ mode_events o.sent)
      × ((send_faults now es o).dev.mode ≡ o.dev.mode)
      × ((send_faults now es o).dev.started ≡ o.dev.started)
      × ((send_faults now es o).dev.pending_modes ≡ o.dev.pending_modes)
unfolding send_faults
send_faults_lem now [] o = (refl, refl, refl, refl)
send_faults_lem now (e ∷ es) o =
    let (sent, mode, started, pending) = send_faults_lem now es _ in
    (
      sent
          ∙ mode_events-append o.sent _
          ∙ ap (λ x. mode_events o.sent ++ (x ++ [])) (no_mode e (u64 (o.dev.seq + 1)))
          ∙ append-nil _,
      mode,
      started,
      pending,
    )
  where
    no_mode : (e : DmsFaultEvent) (seq : ℕ) → mode_event (fault_msg e seq) ≡ []
    no_mode e seq = ground arith

fire_modes-Chain :
    (now : ℕ) (o : Out Dms DmsMsg)
    → TellsOf true o.sent o.dev
    → Chain unknown (mode_events (fire_modes now o).sent) (fire_modes now o).dev.mode
unfolding fire_modes
fire_modes-Chain now o h =
    let (sent, mode, _) = send_modes_lem now o.dev.pending_modes o in
    subst₂ (Chain unknown) (sym sent) (sym mode) h

started-start : (now : ℕ) (d : Dms) → (start now d).started ≡ true
unfolding start
started-start now d = ground arith

started-check :
    (N : Runtime) (demand : Option (Demand N)) (now : ℕ) (d : Dms)
    → (check_congestion N demand now d).started ≡ d.started
unfolding check_congestion follow_congestion
started-check N none now d = refl
started-check N (some x) now d = ground arith

started-periodic : (now : ℕ) (d : Dms) → (fire_periodic now d).started ≡ d.started
unfolding fire_periodic
started-periodic now d = refl

fire_modes_lem :
    (now : ℕ) (o : Out Dms DmsMsg)
    → ((fire_modes now o).dev.started ≡ o.dev.started) × ((fire_modes now o).dev.pending_modes ≡ [])
unfolding fire_modes
fire_modes_lem now o = ((send_modes_lem now o.dev.pending_modes o).2, refl)

fire_faults_lem :
    (now : ℕ) (o : Out Dms DmsMsg)
    → (mode_events (fire_faults now o).sent ≡ mode_events o.sent)
      × ((fire_faults now o).dev.mode ≡ o.dev.mode)
      × ((fire_faults now o).dev.started ≡ o.dev.started)
      × ((fire_faults now o).dev.pending_modes ≡ o.dev.pending_modes)
unfolding fire_faults
fire_faults_lem now o = send_faults_lem now o.dev.pending_faults o

module _ (N : Runtime) where
  tick-Chain :
      (demand : Option (Demand N)) (now : ℕ) (o : Out Dms DmsMsg)
      → IsTold o
      → (Chain unknown (mode_events (tick N demand now o).sent) (tick N demand now o).dev.mode)
        × ((tick N demand now o).dev.started ≡ true)
        × ((tick N demand now o).dev.pending_modes ≡ [])
  unfolding tick
  tick-Chain demand now o h =
      let d1 = start now o.dev in
      let d2 = check_congestion N demand now d1 in
      let o3 : Out Dms DmsMsg = record o { dev = fire_periodic now d2 } in
      let t3 =
        fire_periodic-Tells o.sent now d2
          (check-Tells o.sent N demand now d1 (start-Tells o.sent now o.dev h)) in
      let (started, pending) = fire_modes_lem now o3 in
      let (sent', mode', started', pending') = fire_faults_lem now (fire_modes now o3) in
      (
        subst₂ (Chain unknown) (sym sent') (sym mode') (fire_modes-Chain now o3 t3),
        started'
            ∙ started
            ∙ started-periodic now d2
            ∙ started-check N demand now d1
            ∙ started-start now o.dev,
        pending' ∙ pending,
      )

  -- The calls that the rest of the program makes of a sign.
  pub data Call : Type 0 where
    post_call clear_call : Call
    inject_call clear_fault_call : String → Call
    tick_call : Option (Demand N) → ℕ → Call

  pub perform : Call → Out Dms DmsMsg → Out Dms DmsMsg
  perform post_call o = record o { dev = post_advisory o.dev }
  perform clear_call o = record o { dev = clear_advisory o.dev }
  perform (inject_call id) o = record o { dev = inject_fault id o.dev }
  perform (clear_fault_call id) o = record o { dev = clear_fault id o.dev }
  perform (tick_call demand now) o = tick N demand now o

  pub perform_all : List Call → Out Dms DmsMsg → Out Dms DmsMsg
  perform_all [] o = o
  perform_all (c ∷ cs) o = perform_all cs (perform c o)

  started-advisories :
      (d : Dms) → ((post_advisory d).started ≡ d.started) × ((clear_advisory d).started ≡ d.started)
  unfolding post_advisory clear_advisory
  started-advisories d = ground arith

  perform-IsTold : (c : Call) (o : Out Dms DmsMsg) → IsTold o → IsTold (perform c o)
  unfolding perform inject_fault clear_fault
  perform-IsTold post_call o h =
      rw ((started-advisories o.dev).0) (post-Tells o.sent o.dev.started o.dev h)
  perform-IsTold clear_call o h =
      rw ((started-advisories o.dev).1) (clear-Tells o.sent o.dev.started o.dev h)
  perform-IsTold (inject_call id) o h = h
  perform-IsTold (clear_fault_call id) o h = h
  perform-IsTold (tick_call demand now) o h =
      let (chain, started, pending) = tick-Chain demand now o h in
      rw (started, pending, append-nil) chain

  perform_all-IsTold : (cs : List Call) (o : Out Dms DmsMsg) → IsTold o → IsTold (perform_all cs o)
  unfolding perform_all
  perform_all-IsTold [] o h = h
  perform_all-IsTold (c ∷ cs) o h = perform_all-IsTold cs (perform c o) (perform-IsTold c o h)

  -- Whatever was called of a new sign before, in whatever order, after a tick all its mode events
  -- are sent, and they tell its history: the first starts from `unknown`, each other from the mode
  -- that the one before it announced, and the last announces the mode that the sign has.
  pub mode_history :
      (controller : String) (cs : List Call) (demand : Option (Demand N)) (now : ℕ)
      → let o = perform_all cs (record { dev = new_dms controller; sent = [] }) in
        (Chain unknown (mode_events (tick N demand now o).sent) (tick N demand now o).dev.mode)
        × ((tick N demand now o).dev.pending_modes ≡ [])
  unfolding new_dms
  mode_history controller cs demand now =
      let o = perform_all cs (record { dev = new_dms controller; sent = [] }) in
      let (chain, _, pending) = tick-Chain demand now o (perform_all-IsTold cs _ (refl, refl)) in
      (chain, pending)
