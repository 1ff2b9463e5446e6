-- ===== src/Experiment/Main/Refusal.antt =====
-- When `main` of tools/experiment.py does not get as far as the loop.
use sunstorm_xactserver.Base.{
  ℕ, ◌≡◌, refl, ◌⊎◌, inl, inr, String, Bool, true, false, not, ◌&&◌, ◌||◌, Option, none, some, [],
  arith, Bool-cases,
}
use sunstorm_xactserver.Experiment.Jobs.{Experiment}
use sunstorm_xactserver.Experiment.Progress.{Csv, load}
use sunstorm_xactserver.Experiment.Run.{World, Session, start}
use sunstorm_xactserver.Experiment.Values.{Floats}
use sunstorm_xactserver.Experiment.Main.{Arguments, returned, first_progress, run_all, main}

module _ (F : Floats) (csv : Csv F) (world : World F) (confirmed connected : Bool) where
  pub first_progress-file :
      (new : Bool) (file : Option csv.File) → (first_progress F csv new file).file ≡ file
  unfolding first_progress load
  first_progress-file true file = refl
  first_progress-file false none = refl
  first_progress-file false (some f) = refl

  -- Nothing has been run, and the file is as it was.
  abbrev pub IsUntouched : Option csv.File → Session F csv → Type 0
  IsUntouched file s = (s.calls ≡ []) × (s.submitted ≡ []) × (s.saved.file ≡ file)

  -- Why `main` does not get to the loop, and what it returns then: there is no experiment, the
  -- confirmation is missing, or it is not but results are to be collected and the store is not there.
  pub data Refuses (args : Arguments) (loaded : Option (Experiment F)) : ℕ → Type 0 where
    not_loaded : loaded ≡ none → Refuses args loaded 1
    not_confirmed :
        (exp : Experiment F)
        → loaded ≡ some exp
        → args.y ≡ false
        → confirmed ≡ false
        → Refuses args loaded 0
    not_connected :
        (exp : Experiment F)
        → loaded ≡ some exp
        → args.y || confirmed ≡ true
        → args.options.collects ≡ true
        → connected ≡ false
        → Refuses args loaded 1

  -- With an experiment, a confirmation that is given or not asked for, and a store that answers
  -- where results are collected, `main` runs the loop. Else it has run nothing and leaves the
  -- progress file as it was, and it returns 1 if there is no experiment, 0 if there is one but no
  -- confirmation, and 1 if both are there but not the store where results are to be collected.
  pub main_lem :
      (args : Arguments) (loaded : Option (Experiment F)) (timestamp : String)
      (file : Option csv.File)
      → let (exit, s) = main F csv world confirmed connected args loaded timestamp file in
        ((exp : Experiment F) × (loaded ≡ some exp)
          × (args.y || confirmed ≡ true)
          × (not args.options.collects || connected ≡ true)
          × (main F csv world confirmed connected args loaded timestamp file
              ≡ run_all F csv world confirmed connected args exp timestamp
                  (first_progress F csv args.new file)))
        ⊎ (((n : ℕ) × Refuses args loaded n × (exit ≡ returned n)) × IsUntouched file s)
  unfolding main start
  main_lem args none timestamp file = inr ((1, not_loaded refl, refl), (refl, refl, refl))
  main_lem args (some exp) timestamp file = elim (Bool-cases (not args.y && not confirmed)) [
    | inl e ↦ inr (
      (0, not_confirmed exp refl (ground (arith, e)) (ground (arith, e)), rw e refl),
      rw e (refl, refl, first_progress-file args.new file),
    )
    | inr e ↦ elim (Bool-cases (args.options.collects && not connected)) [
      | inl t ↦ inr (
        (
          1,
          not_connected exp refl (ground (arith, e)) (ground (arith, t)) (ground (arith, t)),
          rw (e, t) refl,
        ),
        rw (e, t) (refl, refl, first_progress-file args.new file),
      )
      | inr t ↦ inl (exp, refl, ground (arith, e), ground (arith, t), rw (e, t) refl)
    ]
  ]
