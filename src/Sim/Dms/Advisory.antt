-- ===== src/Sim/Dms/Advisory.antt =====
-- Who owns the advisory of a sign of internal/sim/dms.go.
use vikasa_demo.Base.{
  ℕ, ◌≡◌, Bool, true, false, Option, none, some, List, [], ◌∷◌, ◌++◌, ◌∙◌, refl, arith,
  if◌then◌else◌, ◌⊎◌,
}
use vikasa_demo.Sim.Emitter.{Out}
use vikasa_demo.Sim.Runtime.{Runtime}
use vikasa_demo.Sim.Demand.{Demand}
use vikasa_demo.Sim.Dms.{
  DmsModeEvent, DmsFaultEvent, DmsMsg, send_modes, fire_modes, send_faults, fire_faults, tick,
  normal, advisory, Dms, post_advisory, clear_advisory, start, follow_congestion, fire_periodic,
  check_congestion,
}

-- An advisory is owned by the scenario or by the congestion of the cabinet, and by one of them.
pub record IsOwned (d : Dms) : Type 0 where
  pub shown : (d.mode ≡ normal) ⊎ (d.mode ≡ advisory)
  pub scripted_shows : d.scripted ≡ true → d.mode ≡ advisory
  pub one_owner : d.scripted ≡ true → d.auto_advisory ≡ false
  pub owned : d.mode ≡ advisory → (d.scripted ≡ true) ⊎ (d.auto_advisory ≡ true)

-- Posting a scripted advisory, the first tick, the congestion check and the periodic event keep the
-- ownership. (Clearing does not: see `clear_redundant`.)
pub post-IsOwned : (d : Dms) → IsOwned d → IsOwned (post_advisory d)
unfolding post_advisory
post-IsOwned d h = ground arith

pub follow-IsOwned :
    (d : Dms) (congested : Bool)
    → d.scripted ≡ false
    → IsOwned d
    → IsOwned (follow_congestion congested d)
unfolding follow_congestion
follow-IsOwned d congested s h = ground arith

-- A sign with no scripted advisory, whose advisory is owned, shows an advisory after the check
-- exactly while there is congestion, and then owns it.
pub follow_congestion_mode :
    (d : Dms) (congested : Bool)
    → IsOwned d
    → d.scripted ≡ false
    → (follow_congestion congested d).mode ≡ (if congested then advisory else normal)
unfolding follow_congestion
follow_congestion_mode d congested h s = ground arith

update_mode :
    (N : Runtime) (demand : Option (Demand N)) (now : ℕ) (d : Dms)
    → d.scripted ≡ true
    → (fire_periodic now (check_congestion N demand now (start now d))).mode ≡ d.mode
unfolding fire_periodic check_congestion start
update_mode N none now d s = ground arith
update_mode N (some x) now d s = ground arith

send_modes_mode :
    (now : ℕ) (es : List DmsModeEvent) (o : Out Dms DmsMsg)
    → (send_modes now es o).dev.mode ≡ o.dev.mode
unfolding send_modes
send_modes_mode now [] o = refl
send_modes_mode now (e ∷ es) o = send_modes_mode now es _

send_faults_mode :
    (now : ℕ) (es : List DmsFaultEvent) (o : Out Dms DmsMsg)
    → (send_faults now es o).dev.mode ≡ o.dev.mode
unfolding send_faults
send_faults_mode now [] o = refl
send_faults_mode now (e ∷ es) o = send_faults_mode now es _

-- From its posting until it is cleared, no tick takes a scripted advisory down, whatever the
-- congestion: a tick leaves the mode of the sign.
pub scripted_holds :
    (N : Runtime) (demand : Option (Demand N)) (now : ℕ) (o : Out Dms DmsMsg)
    → o.dev.scripted ≡ true
    → (tick N demand now o).dev.mode ≡ o.dev.mode
unfolding tick fire_faults fire_modes
scripted_holds N demand now o s =
    let d = fire_periodic now (check_congestion N demand now (start now o.dev)) in
    let o1 : Out Dms DmsMsg = record o { dev = d } in
    let o2 = fire_modes now o1 in
    send_faults_mode now o2.dev.pending_faults o2
    ∙ send_modes_mode now d.pending_modes o1
    ∙ update_mode N demand now o.dev s

-- If the congestion check posted the advisory and `ClearAdvisory` then takes it down, the end of the
-- congestion is announced a second time: from normal to normal.
pub clear_redundant :
    (d : Dms)
    → d.mode ≡ advisory
    → d.auto_advisory ≡ true
    → (follow_congestion false (clear_advisory d)).pending_modes
      ≡ (d.pending_modes
          ++ record { prior = advisory; current = normal; reason = "advisory-cleared" } ∷ [])
        ++ record { prior = normal; current = normal; reason = "congestion cleared" } ∷ []
unfolding follow_congestion clear_advisory
clear_redundant d m a = ground arith
