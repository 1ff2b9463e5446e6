-- ===== src/Experiment/Sample.antt =====
-- A small experiment, Python's floats as natural numbers, and a csv module, for the tests.
use sunstorm_xactserver.Base.{ℕ, String, none, some, List, [], ◌∷◌, map, eqb}
use sunstorm_xactserver.Base.Dict.{Dict}
use sunstorm_xactserver.Base.Int.{pos, eqb_ℤ}
use sunstorm_xactserver.Base.Text.{show}
use sunstorm_xactserver.Experiment.Values.{Floats, int, literal}
use sunstorm_xactserver.Experiment.Jobs.{plain, many, Experiment}
use sunstorm_xactserver.Experiment.Progress.{Csv}
use sunstorm_xactserver.Experiment.Progress.File.{row}

abbrev pub floats : Floats
floats = record {
  Float = ℕ;
  show_float = λ x. show x;
  eq_float = λ x y. eqb x y;
  eq_int = λ x z. eqb_ℤ (pos x) z;
}

-- A file that keeps its rows.
abbrev pub csv : Csv floats
csv = record {
  File = List (Dict String String);
  write = λ names rs. map (row floats names) rs;
  read = λ f. f;
}

abbrev pub exp : Experiment floats
exp = record {
  name = "hot";
  dbtype = "postgres";
  reload_every = none;
  benchmark = "ycsb";
  scalefactor = pos 1;
  time = pos 60;
  rate = pos 100;
  isolation = "serializable";
  param_keys = plain "clients" ∷ [];
  param_values =
      ("clients", many (literal (some (int (pos 1))) ∷ literal (some (int (pos 2))) ∷ [])) ∷ [];
  replace = [];
}
