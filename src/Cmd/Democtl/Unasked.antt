-- ===== src/Cmd/Democtl/Unasked.antt =====
-- `democtl tour --ai --only` with names of standard phases only (cmd/democtl/main.go).
use vikasa_demo.Base.{string_eq}
use vikasa_demo.Tour.Stage.{Stage}
use vikasa_demo.Tour.Phase.{Phase}
