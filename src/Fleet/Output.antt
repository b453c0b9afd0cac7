-- ===== src/Fleet/Output.antt =====
-- tools/gen-compose/main.go: `run`, on a file system that is a parameter. A call that fails ends it.
pub mod Written
use vikasa_demo.Base.{Bool, true, false, String, List, [], ◌∷◌, ◌++◌, if◌then◌else◌, texts}
use vikasa_demo.Fleet.Size.{Size}
use vikasa_demo.Fleet.Artifacts.{Format}
use vikasa_demo.Fleet.Cabinets.{Fleet, kept_fleet}
use vikasa_demo.Fleet.Confs.{File, nats_confs, sim_confs, inventories}
use vikasa_demo.Fleet.Seed.{seed_sql}
use vikasa_demo.Fleet.Compose.{compose_data, prometheus_targets}

pub record Disk : Type 1 where
  pub State : Type 0
  pub remove_all : String → State → State × Bool
  pub mkdir_all : String → State → State × Bool
  pub write_file : String → String → State → State × Bool

module _ (E : Format) (K : Disk) where
  open E use {join_path, dir}
  open K use {remove_all, mkdir_all, write_file}

  -- what `run` does, in its order
  pub data Job : Type 0 where
    remove make_dir : String → Job
    write : File → Job

  abbrev pub do_job : Job → K.State → K.State × Bool
  do_job (remove path) s = remove_all path s
  do_job (make_dir path) s = mkdir_all path s
  do_job (write (path, content)) s = write_file path content s

  unfoldable pub do_jobs : List Job → K.State → K.State × Bool
  do_jobs [] s = (s, true)
  do_jobs (j ∷ js) s =
      let (s1, well) = do_job j s in let rest = do_jobs js s1 in if well then rest else (s1, false)

  abbrev pub writes : List File → List Job
  writes [] = []
  writes (f ∷ fs) = write f ∷ writes fs

  -- The jobs for a fleet that is filtered already.
  unfoldable pub jobs : Fleet E → String → List Job
  jobs f out =
      let deploy = dir out in
      let nats = join_path out "nats" in
      let sims = join_path out "sims" in
      let inv = join_path (join_path deploy "topology") "inventories" in
      let ch = join_path deploy "clickhouse" in
      let prom = join_path deploy "prometheus" in
      remove nats
      ∷ remove sims
      ∷ make_dir out
      ∷ make_dir nats
      ∷ make_dir sims
      ∷ make_dir inv
      ∷ make_dir ch
      ∷ (writes (nats_confs E nats f.dots)
          ++ writes (sim_confs E sims f.dots)
          ++ writes (inventories E inv f.dots)
          ++ write (join_path ch "seed.generated.sql", seed_sql E f)
            ∷ write
                (join_path out "docker-compose.generated.yml", E.render_compose (compose_data E f))
            ∷ make_dir prom
            ∷ write (
              join_path prom "targets.generated.json",
              texts (E.encode_targets (prometheus_targets E f) ∷ "\n" ∷ []),
            )
            ∷ [])

  unfoldable pub run : Size → Fleet E → String → K.State → K.State × Bool
  unfolding jobs
  run size f out s = do_jobs (jobs (kept_fleet E size f) out) s
