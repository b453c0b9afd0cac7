-- ===== src/Fleet/Tests/Writing.antt =====
-- A run of the generator on a disk in memory.
use vikasa_demo.Base.{
  ◌≡◌, refl, ap, ◌∙◌, true, false, String, List, [], ◌∷◌, some, All, str_eq, eq_iff, Dict, get, put,
  get-put, string_eq,
}
use vikasa_demo.Fleet.Size.{large, keep}
use vikasa_demo.Fleet.Cabinets.{Fleet, kept_fleet, kept_cabinets, is_kept}
use vikasa_demo.Fleet.Confs.{
  File, nats_confs, dot_confs, cabinet_confs, sim_confs, cabinet_sims, inventories,
}
use vikasa_demo.Fleet.Output.{Disk, Job, remove, make_dir, write, do_jobs, jobs, run}
use vikasa_demo.Fleet.Output.Written.{Readable, HasDistinctPaths, files, run_writes}
use vikasa_demo.Fleet.Tests.{plain, cabinet}

-- A disk in memory, on which every call succeeds; it has no directories.
abbrev memory : Disk
memory = record {
  State = Dict String String;
  remove_all = λ path s. ([], true);
  mkdir_all = λ path s. (s, true);
  write_file = λ path content s. (put path content s, true);
}

memory_read :
    (p q c : String) (s : Dict String String)
    → (str_eq p q ≡ true → get q (put p c s) ≡ some c)
      × (str_eq p q ≡ false → get q (put p c s) ≡ get q s)
memory_read p q c s = (λ e. get-put p q c s ∙ rw e refl, λ e. get-put p q c s ∙ rw e refl)

abbrev readable : Readable memory
readable = record {
  read = λ path s. get path s;
  write_read = λ p c s e. (memory_read p p c s).0 ((eq_iff p p).1 refl);
  write_other = λ p c q s e. (memory_read p q c s).1 e;
  mkdir_read = λ p q s. refl;
}

memory_succeeds :
    (js : List (Job plain memory)) (s : Dict String String) → (do_jobs plain memory js s).1 ≡ true
unfolding do_jobs
memory_succeeds [] s = refl
memory_succeeds (remove path ∷ js) s = memory_succeeds js []
memory_succeeds (make_dir path ∷ js) s = memory_succeeds js s
memory_succeeds (write (path, content) ∷ js) s = memory_succeeds js (put path content s)

-- one department with one cabinet
abbrev tiny : Fleet plain
tiny = record {
  region = "southeast";
  dots =
      record { dot = "mardot"; district = "d7"; cabinets = cabinet "cab-i85-001" "i85" "i85" ∷ [] }
      ∷ [];
}

abbrev left_behind : Dict String String
unfolding run
left_behind = (run plain memory large tiny "deploy/compose" []).0

tiny_paths : HasDistinctPaths (files plain memory (kept_fleet plain large tiny) "deploy/compose")
unfolding kept_fleet kept_cabinets is_kept keep nats_confs dot_confs cabinet_confs sim_confs
    cabinet_sims inventories
tiny_paths = (
  (refl, (refl, (refl, (refl, (refl, (refl, (refl, (refl, tt)))))))),
  (
    (refl, (refl, (refl, (refl, (refl, (refl, (refl, tt))))))),
    (
      (refl, (refl, (refl, (refl, (refl, (refl, tt)))))),
      (
        (refl, (refl, (refl, (refl, (refl, tt))))),
        (
          (refl, (refl, (refl, (refl, tt)))),
          ((refl, (refl, (refl, tt))), ((refl, (refl, tt)), ((refl, tt), (tt, tt)))),
        ),
      ),
    ),
  ),
)

run_writes_example :
    All
      (λ (g : File). get g.0 left_behind ≡ some g.1)
      (files plain memory (kept_fleet plain large tiny) "deploy/compose")
unfolding run
run_writes_example =
    run_writes plain memory readable large tiny "deploy/compose" [] left_behind tiny_paths (
      ap (λ b. (left_behind, b))
        (memory_succeeds (jobs plain memory (kept_fleet plain large tiny) "deploy/compose") []))
