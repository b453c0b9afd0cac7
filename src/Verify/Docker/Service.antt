-- ===== src/Verify/Docker/Service.antt =====
-- The service that internal/verify/docker.go takes for a cabinet, against the one that
-- tools/gen-compose/main.go gives it.
use text.Mathlib.TextLemmas.{append_assoc, append_cancel_right}
use vikasa_demo.Base.{String, [], ◌∷◌, ◌≡◌, ◌↔◌, sym, ap, ◌∙◌, str_append, texts}
use vikasa_demo.Verify.Docker.{cabinet_leaf_service}
use vikasa_demo.Fleet.Names.{leaf_service}

mardot_service : (cabinet : String) → cabinet_leaf_service cabinet ≡ leaf_service "mardot" cabinet
mardot_service cabinet = append_assoc "mardot" "-" (texts (cabinet ∷ "-nats" ∷ []))

-- The two agree on a cabinet exactly where the department is mardot.
pub cabinet_leaf_service-leaf_service :
    (dot cabinet : String)
    → (cabinet_leaf_service cabinet ≡ leaf_service dot cabinet) ↔ (dot ≡ "mardot")
cabinet_leaf_service-leaf_service dot cabinet = (
  λ h. sym (
      append_cancel_right "mardot" dot (str_append "-" (texts (cabinet ∷ "-nats" ∷ [])))
        (sym (mardot_service cabinet) ∙ h)),
  λ h. mardot_service cabinet ∙ ap (λ d. leaf_service d cabinet) (sym h),
)
