-- ===== src/Experiment/Main/Rerun.antt =====
-- A second run of tools/experiment.py, from the progress file that a run has left.
use sunstorm_xactserver.Base.{
  ◌≡◌, refl, sym, ◌∙◌, ap, subst, ◌⊎◌, String, true, false, Bool, Option, none, some, List, [], ◌∷◌,
  map, arith, All, contains, string_eq, inl, inr,
}
use sunstorm_xactserver.Base.Dict.{keys}
use sunstorm_xactserver.Experiment.Jobs.{Job}
use sunstorm_xactserver.Experiment.Progress.{
  Csv, Metadata, Record, Progress, as_values, fieldnames, find_record, load,
}
use sunstorm_xactserver.Experiment.Progress.File.{
  measured, HasColumns, IsRow, ReadsBack, read_back, row, fieldnames-HasColumns,
  find_record-read_back, lookup_at-read_back,
}
use sunstorm_xactserver.Experiment.Progress.Records.{IsFree}
use sunstorm_xactserver.Experiment.Values.{Floats, ParameterValue}
use sunstorm_xactserver.Experiment.Run.{World, Options, Session, start, status_of, run_jobs}
use sunstorm_xactserver.Experiment.Run.Rounds.{status_for, found_of_status_for, status_for-eq}
use sunstorm_xactserver.Experiment.Run.Rows.{IsNamedJob, run_jobs-AllRows}
use sunstorm_xactserver.Experiment.Run.Filed.{run_jobs-IsFiled}
use sunstorm_xactserver.Experiment.Main.{first_progress}

not_measured_go :
    (ks : List String) (k : String)
    → contains ks "reloaded" ≡ false
    → contains ks "throughput" ≡ false
    → contains ks "goodput" ≡ false
    → contains ks k ≡ true
    → contains measured k ≡ false
not_measured_go [] k a b c h = cc
not_measured_go (x ∷ ks) k a b c h = ground (arith, not_measured_go ks k)

module _ (F : Floats) (csv : Csv F) where
  map-row :
      (columns : List String) (rs : List (Record F))
      → map (as_values F) (map (row F columns) rs) ≡ map (read_back F columns) rs
  map-row columns [] = refl
  map-row columns (r ∷ rs) = ap (λ qs. read_back F columns r ∷ qs) (map-row columns rs)

  -- Records that are read back have the same record for the metadata of a job, with the same
  -- status.
  status_for-read_back :
      (names columns : List String) (m : Metadata) (rs : List (Record F)) {w : ParameterValue F}
      → IsFree m
      → keys m ≡ names
      → All (IsRow F names) rs
      → columns ≡ fieldnames F rs
      → status_for F csv m rs ≡ some w
      → status_for F csv m (map (read_back F columns) rs) ≡ some w
  unfolding status_of string_eq
  status_for-read_back names columns m rs free same rows cols h =
      let (i, found, st) = found_of_status_for F csv m rs h in
      let has = subst (λ c. All (HasColumns F c) rs) (sym cols) (fieldnames-HasColumns F rs) in
      let named : (k : String)
          → contains (keys m) k ≡ true
          → (contains names k ≡ true) × (contains measured k ≡ false) =
        λ k e. (
          subst (λ ks. contains ks k ≡ true) same e,
          not_measured_go (keys m) k free.reloaded free.throughput free.goodput e,
        ) in
      status_for-eq F csv m (map (read_back F columns) rs)
        (find_record-read_back F names columns m rs named rows has ∙ found)
      ∙ lookup_at-read_back F names columns "status" i rs refl rows has st

  load_twice :
      (new : Bool) (file : Option csv.File)
      → let p = first_progress F csv new file in
        (p.progress ≡ []) ⊎ (first_progress F csv false p.file ≡ p)
  unfolding first_progress load
  load_twice true file = inl refl
  load_twice false none = inl refl
  load_twice false (some f) = inr refl

  status_for-nil : (m : Metadata) {w : ParameterValue F} → status_for F csv m [] ≡ some w → ⊥
  unfolding find_record
  status_for-nil m h = cc

  first_progress-some :
      (file : Option csv.File) {f : csv.File}
      → file ≡ some f
      → (first_progress F csv false file).progress ≡ map (as_values F) (csv.read f)
  unfolding first_progress load
  first_progress-some file e = rw e refl

  module _ (world : World F) (o : Options) (names : List String) where
    -- After a run from a progress file or from none, with jobs whose metadata has the same keys and
    -- no key of the loop's own fields, the file reads back with the statuses of the records, however
    -- the run ended. The records at the start have these keys and texts, and the csv module reads
    -- back what it writes.
    pub run_jobs-first_progress :
        (jobs : List (Job F)) (new : Bool) (file : Option csv.File) (m : Metadata)
        {w : ParameterValue F}
        → All (IsNamedJob F names csv world o) jobs
        → All (IsRow F names) (first_progress F csv new file).progress
        → let s = (run_jobs F csv world o jobs (start F csv (first_progress F csv new file))).1 in
          ReadsBack F csv s.progress
          → IsFree m
          → keys m ≡ names
          → status_for F csv m s.progress ≡ some w
          → status_for F csv m (first_progress F csv false s.saved.file).progress ≡ some w
    unfolding start
    run_jobs-first_progress jobs new file m {w} named rows back free same h =
        elim (run_jobs-IsFiled F csv world o p0 jobs s0 (inl refl)) [
          | inl kept ↦ elim (load_twice new file) [
            | inl e ↦ absurd (
                status_for-nil m (
                  subst (λ rs. status_for F csv m rs ≡ some w)
                    (ap (λ (p : Progress F csv). p.progress) kept ∙ e) h))
            | inr again ↦
                subst
                  (λ (p : Progress F csv).
                    status_for F csv m (first_progress F csv false p.file).progress ≡ some w)
                  (sym kept)
                  (subst (λ (p : Progress F csv). status_for F csv m p.progress ≡ some w)
                    (kept ∙ sym again) h)
          ]
          | inr saved ↦
              subst (λ rs. status_for F csv m rs ≡ some w)
                (sym (
                  first_progress-some s.saved.file (
                    saved
                      (λ e. status_for-nil m (subst (λ rs. status_for F csv m rs ≡ some w) e h)))
                  ∙ ap (map (as_values F)) back
                  ∙ map-row (fieldnames F s.progress) s.progress))
                (status_for-read_back names (fieldnames F s.progress) m s.progress free same
                  (run_jobs-AllRows F names csv world o jobs s0 named rows) refl h)
        ]
      where
        p0 : Progress F csv
        p0 = first_progress F csv new file

        s0 : Session F csv
        s0 = start F csv p0

        s : Session F csv
        s = (run_jobs F csv world o jobs s0).1
