-- ===== src/Sim/Cabinet/Sends.antt =====
-- What the devices of internal/sim hand to the emitter, told by the controller and the type that it has.
use vikasa_demo.Base.{◌≡◌, ◌∙◌, String, List, [], ◌∷◌, All, All-append}
use vikasa_demo.Sim.Emitter.{Emission, emit}

module _ (c : String) (P : String → Type 0) where
  -- The events come from the controller `c`, and each has a type of `P`.
  abbrev pub AreFrom : {M : Type 0} → List (Emission M) → Type 0
  AreFrom es = All (λ e. (e.controller ≡ c) × P e.ce_type) es

  -- So do the events that a device with a controller has sent, and it is itself that controller.
  abbrev pub Sends : {M : Type 0} → String → List (Emission M) → Type 0
  Sends controller es = (controller ≡ c) × AreFrom es

  pub Sends-emit :
      {M : Type 0} (controller : String) (es : List (Emission M)) (e : Emission M)
      → e.controller ≡ controller
      → P e.ce_type
      → Sends controller es
      → Sends controller (emit es e)
  Sends-emit controller es e same p h = (h.0, All-append _ es (e ∷ []) h.1 ((same ∙ h.0, p), tt))
