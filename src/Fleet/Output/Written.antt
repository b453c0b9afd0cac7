-- ===== src/Fleet/Output/Written.antt =====
-- What a run of tools/gen-compose leaves on the disk.
use mathlib.Core.Path.{subst}
use vikasa_demo.Base.{
  ◌≡◌, refl, sym, ap, ◌∙◌, inl, inr, true, false, String, List, [], ◌∷◌, ◌++◌, Option, some, All,
  append_assoc, Bool-cases, str_eq, texts,
}
use vikasa_demo.Fleet.Size.{Size}
use vikasa_demo.Fleet.Artifacts.{Format}
use vikasa_demo.Fleet.Cabinets.{Fleet, kept_fleet}
use vikasa_demo.Fleet.Confs.{File, nats_confs, sim_confs, inventories}
use vikasa_demo.Fleet.Seed.{seed_sql}
use vikasa_demo.Fleet.Compose.{compose_data, prometheus_targets}
use vikasa_demo.Fleet.Output.{
  Disk, Job, remove, make_dir, write, do_job, do_jobs, writes, jobs, run,
}

-- What is read of a file system: a file that is written has what was written, other files stay, and so
-- they do where directories are made.
pub record Readable (K : Disk) : Type 0 where
  pub read : String → K.State → Option String
  pub write_read :
      (p c : String) (s : K.State)
      → (K.write_file p c s).1 ≡ true
      → read p (K.write_file p c s).0 ≡ some c
  pub write_other :
      (p c q : String) (s : K.State) → str_eq p q ≡ false → read q (K.write_file p c s).0 ≡ read q s
  pub mkdir_read : (p q : String) (s : K.State) → read q (K.mkdir_all p s).0 ≡ read q s

-- No two of the files have the same path.
abbrev pub HasDistinctPaths : List File → Type 0
HasDistinctPaths [] = Unit
HasDistinctPaths (f ∷ fs) = All (λ (g : File). str_eq g.0 f.0 ≡ false) fs × HasDistinctPaths fs

module _ (E : Format) (K : Disk) where
  abbrev collect : List (Job E K) → List File
  collect [] = []
  collect (remove p ∷ js) = collect js
  collect (make_dir p ∷ js) = collect js
  collect (write f ∷ js) = f ∷ collect js

  abbrev RemovesNothing : List (Job E K) → Type 0
  RemovesNothing [] = Unit
  RemovesNothing (remove p ∷ js) = ⊥
  RemovesNothing (make_dir p ∷ js) = RemovesNothing js
  RemovesNothing (write f ∷ js) = RemovesNothing js

  do_jobs_ok :
      (j : Job E K) (js : List (Job E K)) (s s' : K.State)
      → do_jobs E K (j ∷ js) s ≡ (s', true)
      → ((do_job E K j s).1 ≡ true) × (do_jobs E K js (do_job E K j s).0 ≡ (s', true))
  unfolding do_jobs
  do_jobs_ok j js s s' h = elim (Bool-cases (do_job E K j s).1) [
    | inl e ↦ (e, rw e at h)
    | inr e ↦ let g = rw e at h in absurd (cc)
  ]

  module _ (R : Readable K) where
    open R use {read, write_read, write_other, mkdir_read}

    keeps :
        (q : String) (js : List (Job E K)) (s s' : K.State)
        → RemovesNothing js
        → All (λ (g : File). str_eq g.0 q ≡ false) (collect js)
        → do_jobs E K js s ≡ (s', true)
        → read q s' ≡ read q s
    unfolding do_jobs
    keeps q [] s s' r fresh h = ap (λ y. read q y.0) (sym h)
    keeps q (make_dir p ∷ js) s s' r fresh h =
        keeps q js (K.mkdir_all p s).0 s' r fresh (do_jobs_ok (make_dir p) js s s' h).1
        ∙ mkdir_read p q s
    keeps q (write (p, c) ∷ js) s s' r fresh h =
        keeps q js (K.write_file p c s).0 s' r fresh.1 (do_jobs_ok (write (p, c)) js s s' h).1
        ∙ write_other p c q s fresh.0
    keeps q (remove p ∷ js) s s' r fresh h = absurd r

    written :
        (js : List (Job E K)) (s s' : K.State)
        → RemovesNothing js
        → HasDistinctPaths (collect js)
        → do_jobs E K js s ≡ (s', true)
        → All (λ (g : File). read g.0 s' ≡ some g.1) (collect js)
    written [] s s' r d h = tt
    written (remove p ∷ js) s s' r d h = absurd r
    written (make_dir p ∷ js) s s' r d h =
        written js (K.mkdir_all p s).0 s' r d (do_jobs_ok (make_dir p) js s s' h).1
    written (write (p, c) ∷ js) s s' r d h =
        let (e, g) = do_jobs_ok (write (p, c)) js s s' h in
        (
          keeps p js (K.write_file p c s).0 s' r d.0 g ∙ write_read p c s e,
          written js (K.write_file p c s).0 s' r d.1 g,
        )

  collect-writes :
      (fs : List File) (js : List (Job E K)) → collect (writes E K fs ++ js) ≡ fs ++ collect js
  collect-writes [] js = refl
  collect-writes (f ∷ fs) js = ap (λ l. f ∷ l) (collect-writes fs js)

  writes-RemovesNothing :
      (fs : List File) (js : List (Job E K))
      → RemovesNothing js
      → RemovesNothing (writes E K fs ++ js)
  writes-RemovesNothing [] js h = h
  writes-RemovesNothing (f ∷ fs) js h = writes-RemovesNothing fs js h

  open E use {join_path, dir}

  abbrev conf_dir : String → String
  conf_dir out = join_path out "nats"

  abbrev sim_dir : String → String
  sim_dir out = join_path out "sims"

  abbrev inventory_dir : String → String
  inventory_dir out = join_path (join_path (dir out) "topology") "inventories"

  -- The three files after those of the departments and of the cabinets.
  abbrev last_files : Fleet E → String → List File
  last_files f out =
      (join_path (join_path (dir out) "clickhouse") "seed.generated.sql", seed_sql E f)
      ∷ (join_path out "docker-compose.generated.yml", E.render_compose (compose_data E f))
      ∷ (
        join_path (join_path (dir out) "prometheus") "targets.generated.json",
        texts (E.encode_targets (prometheus_targets E f) ∷ "\n" ∷ []),
      )
      ∷ []

  -- every file of a deployment, with its content
  abbrev pub files : Fleet E → String → List File
  files f out =
      nats_confs E (conf_dir out) f.dots
      ++ (sim_confs E (sim_dir out) f.dots
          ++ (inventories E (inventory_dir out) f.dots ++ last_files f out))

  abbrev last_jobs : Fleet E → String → List (Job E K)
  last_jobs f out =
      write (join_path (join_path (dir out) "clickhouse") "seed.generated.sql", seed_sql E f)
      ∷ write (join_path out "docker-compose.generated.yml", E.render_compose (compose_data E f))
      ∷ make_dir (join_path (dir out) "prometheus")
      ∷ write (
        join_path (join_path (dir out) "prometheus") "targets.generated.json",
        texts (E.encode_targets (prometheus_targets E f) ∷ "\n" ∷ []),
      )
      ∷ []

  abbrev file_jobs : Fleet E → String → List (Job E K)
  file_jobs f out =
      writes E K (nats_confs E (conf_dir out) f.dots)
      ++ (writes E K (sim_confs E (sim_dir out) f.dots)
          ++ (writes E K (inventories E (inventory_dir out) f.dots) ++ last_jobs f out))

  collect-file_jobs : (f : Fleet E) (out : String) → collect (file_jobs f out) ≡ files f out
  collect-file_jobs f out =
      let confs = nats_confs E (conf_dir out) f.dots in
      let sims = sim_confs E (sim_dir out) f.dots in
      let invs = inventories E (inventory_dir out) f.dots in
      collect-writes confs (writes E K sims ++ (writes E K invs ++ last_jobs f out))
      ∙ ap (λ l. confs ++ l)
          (collect-writes sims (writes E K invs ++ last_jobs f out)
            ∙ ap (λ l. sims ++ l) (collect-writes invs (last_jobs f out)))

  file_jobs-RemovesNothing : (f : Fleet E) (out : String) → RemovesNothing (file_jobs f out)
  file_jobs-RemovesNothing f out = writes-RemovesNothing (nats_confs E (conf_dir out) f.dots) _ (
      writes-RemovesNothing (sim_confs E (sim_dir out) f.dots) _
        (writes-RemovesNothing (inventories E (inventory_dir out) f.dots) (last_jobs f out) tt))

  abbrev dirs_then : String → List (Job E K) → List (Job E K)
  dirs_then out js =
      make_dir out
      ∷ make_dir (conf_dir out)
      ∷ make_dir (sim_dir out)
      ∷ make_dir (inventory_dir out)
      ∷ make_dir (join_path (dir out) "clickhouse")
      ∷ js

  -- `run` removes two directories, makes five, and writes the files.
  jobs_lem :
      (f : Fleet E) (out : String)
      → jobs E K f out
        ≡ remove (conf_dir out) ∷ remove (sim_dir out) ∷ dirs_then out (file_jobs f out)
  unfolding jobs
  jobs_lem f out =
      let confs = writes E K (nats_confs E (conf_dir out) f.dots) in
      let sims = writes E K (sim_confs E (sim_dir out) f.dots) in
      let invs = writes E K (inventories E (inventory_dir out) f.dots) in
      ap (λ l. remove (conf_dir out) ∷ remove (sim_dir out) ∷ dirs_then out l)
        (append_assoc (confs ++ sims) invs (last_jobs f out)
          ∙ append_assoc confs sims (invs ++ last_jobs f out))

  jobs_write :
      (R : Readable K) (f : Fleet E) (out : String) (s s' : K.State)
      → HasDistinctPaths (files f out)
      → do_jobs E K (jobs E K f out) s ≡ (s', true)
      → All (λ (g : File). R.read g.0 s' ≡ some g.1) (files f out)
  jobs_write R f out s s' d h =
      let js = dirs_then out (file_jobs f out) in
      let h0 = ap (λ l. do_jobs E K l s) (sym (jobs_lem f out)) ∙ h in
      let (_, h1) = do_jobs_ok (remove (conf_dir out)) (remove (sim_dir out) ∷ js) s s' h0 in
      let (_, h2) = do_jobs_ok (remove (sim_dir out)) js (K.remove_all (conf_dir out) s).0 s' h1 in
      let e = collect-file_jobs f out in
      subst (All (λ (g : File). R.read g.0 s' ≡ some g.1)) e (
        written R js (K.remove_all (sim_dir out) (K.remove_all (conf_dir out) s).0).0 s'
          (file_jobs-RemovesNothing f out) (subst HasDistinctPaths (sym e) d) h2)

  -- On a file system whose files can be read, a run that succeeds has left every file of the deployment
  -- of the size with its content, if no two of these files have the same path.
  pub run_writes :
      (R : Readable K) (size : Size) (f : Fleet E) (out : String) (s s' : K.State)
      → HasDistinctPaths (files (kept_fleet E size f) out)
      → run E K size f out s ≡ (s', true)
      → All (λ (g : File). R.read g.0 s' ≡ some g.1) (files (kept_fleet E size f) out)
  unfolding run
  run_writes R size f out s s' d h = jobs_write R (kept_fleet E size f) out s s' d h
