-- ===== src/Sim/Dms/Modes.antt =====
-- How the operations of internal/sim/dms.go queue mode events.
use mathlib.Core.Path.{subst}
use vikasa_demo.Base.{
  ℕ, ◌≡◌, refl, sym, ap, ◌∙◌, String, Bool, true, false, Option, none, some, List, [], ◌∷◌, ◌++◌,
  append_assoc, arith, every_inv, if-cases, ◌&&◌, not,
}
use vikasa_demo.Sim.Emitter.{Emission, Out}
use vikasa_demo.Sim.Runtime.{Runtime}
use vikasa_demo.Sim.Demand.{Demand}
use vikasa_demo.Sim.Dms.{
  Mode, unknown, normal, advisory, is_normal, is_advisory, switch, congestion_ahead,
  congestion_cleared, dms_periodic_reassert_period, DmsModeEvent, DmsMsg, mode_changed, Dms,
  post_advisory, clear_advisory, start, follow_congestion, fire_periodic, check_congestion,
}

-- Each event starts from the mode that the one before it announced, from the first mode to the last.
abbrev pub Chain : Mode → List DmsModeEvent → Mode → Type 0
Chain m [] last = m ≡ last
Chain m (e ∷ es) last = (e.prior ≡ m) × Chain e.current es last

pub Chain-append :
    (m mid last : Mode) (es fs : List DmsModeEvent)
    → Chain m es mid
    → Chain mid fs last
    → Chain m (es ++ fs) last
Chain-append m mid last [] fs h k = subst (λ x. Chain x fs last) (sym h) k
Chain-append m mid last (e ∷ es) fs h k = (h.0, Chain-append e.current mid last es fs h.1 k)

-- the mode events among the events sent
abbrev pub mode_event : DmsMsg → List DmsModeEvent
mode_event (mode_changed e _) = e ∷ []
mode_event _ = []

abbrev pub mode_events : List (Emission DmsMsg) → List DmsModeEvent
mode_events [] = []
mode_events (e ∷ es) = mode_event e.msg ++ mode_events es

pub mode_events-append :
    (es fs : List (Emission DmsMsg)) → mode_events (es ++ fs) ≡ mode_events es ++ mode_events fs
mode_events-append [] fs = refl
mode_events-append (e ∷ es) fs =
    ap (λ x. mode_event e.msg ++ x) (mode_events-append es fs)
    ∙ sym (append_assoc (mode_event e.msg) _ _)

-- The events sent and then those queued tell how the sign came to its mode. Before the first tick
-- nothing is sent and the sign starts as `normal`.
abbrev pub Tells : Bool → List (Emission DmsMsg) → List DmsModeEvent → Mode → Type 0
Tells true sent queue mode = Chain unknown (mode_events sent ++ queue) mode
Tells false sent queue mode = (mode_events sent ≡ []) × Chain normal queue mode

abbrev pub TellsOf : Bool → List (Emission DmsMsg) → Dms → Type 0
TellsOf b sent d = Tells b sent d.pending_modes d.mode

abbrev pub IsTold : Out Dms DmsMsg → Type 0
IsTold o = TellsOf o.dev.started o.sent o.dev

module _ (sent : List (Emission DmsMsg)) where
  append_event :
      (b : Bool) (queue : List DmsModeEvent) (mode : Mode) (e : DmsModeEvent)
      → e.prior ≡ mode
      → Tells b sent queue mode
      → Tells b sent (queue ++ e ∷ []) e.current
  append_event true queue mode e p h =
      rw (← append_assoc (mode_events sent) queue (e ∷ []))
        (Chain-append unknown mode e.current _ (e ∷ []) h (p, refl))
  append_event false queue mode e p h =
      (h.0, Chain-append normal mode e.current queue (e ∷ []) h.1 (p, refl))

  pub switch-Tells :
      (b : Bool) (d : Dms) (m : Mode) (why : String)
      → TellsOf b sent d
      → TellsOf b sent (switch m why d)
  switch-Tells b d m why h =
      append_event b d.pending_modes d.mode (record { prior = d.mode; current = m; reason = why })
        refl h

  pub start-Tells : (now : ℕ) (d : Dms) → TellsOf d.started sent d → TellsOf true sent (start now d)
  unfolding start
  start-Tells now d h = go d.started refl h
    where
      go : (b : Bool) → d.started ≡ b → TellsOf b sent d → TellsOf true sent (start now d)
      go true e t = simp e t
      go false e t = simp (e, t.0) (refl, t.1)

  follow-Tells :
      (b congested : Bool) (d : Dms)
      → TellsOf b sent d
      → TellsOf b sent (follow_congestion congested d)
  unfolding follow_congestion
  follow-Tells b congested d h =
      if-cases (TellsOf b sent) (congested && is_normal d.mode) (congestion_ahead d) _
        (λ _. switch-Tells b d advisory "congestion ahead" h)
        λ _.
          if-cases (TellsOf b sent) (not congested && d.auto_advisory) (congestion_cleared d) d
            (λ _. switch-Tells b d normal "congestion cleared" h) (λ _. h)

  pub check-Tells :
      (N : Runtime) (demand : Option (Demand N)) (now : ℕ) (d : Dms)
      → TellsOf true sent d
      → TellsOf true sent (check_congestion N demand now d)
  unfolding check_congestion
  check-Tells N none now d h = h
  check-Tells N (some x) now d h =
      if-cases (TellsOf true sent) d.scripted d _ (λ _. h) (λ _. follow-Tells true _ d h)

  pub fire_periodic-Tells :
      (now : ℕ) (d : Dms) → TellsOf true sent d → TellsOf true sent (fire_periodic now d)
  unfolding fire_periodic
  fire_periodic-Tells now d h =
      every_inv dms_periodic_reassert_period _ (omega arith)
        (λ (q : List DmsModeEvent). Tells true sent q d.mode)
        (λ at q c.
          append_event true q d.mode
            (record { prior = d.mode; current = d.mode; reason = "periodic" }) refl c)
        now d.next_periodic d.pending_modes h

  pub post-Tells : (b : Bool) (d : Dms) → TellsOf b sent d → TellsOf b sent (post_advisory d)
  unfolding post_advisory
  post-Tells b d h =
      let d' = record d { scripted = true; auto_advisory = false } in
      if-cases (TellsOf b sent) (is_advisory d.mode) d' (switch advisory "advisory-posted" d')
        (λ _. h) (λ _. switch-Tells b d' advisory "advisory-posted" h)

  pub clear-Tells : (b : Bool) (d : Dms) → TellsOf b sent d → TellsOf b sent (clear_advisory d)
  unfolding clear_advisory
  clear-Tells b d h =
      let d' = record d { scripted = false } in
      if-cases (TellsOf b sent) (is_normal d.mode) d' (switch normal "advisory-cleared" d') (λ _. h)
        (λ _. switch-Tells b d' normal "advisory-cleared" h)
