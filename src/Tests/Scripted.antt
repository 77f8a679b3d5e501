-- ===== src/Tests/Scripted.antt =====
-- A machine whose commands give the answers of a script, in order, and that counts the programs
-- that are not git.
use git_storage.Prelude.{
  ℕ, ◌+◌, ◌≡◌, refl, ◌∙◌, true, false, Option, none, some, List, [], ◌∷◌, if◌then◌else◌,
}
use git_storage.Prelude.Text.{Text, codes, eqb}
use git_storage.Process.{Machine, Running, Output, Command}
use git_storage.Backend.Isolation.{Isolated, Holds}

pub record Script : Type 0 where
  pub answers : List Output
  pub clock : ℕ
  pub foreign : ℕ
  pub token : Option Text

abbrev pub answered : List Output → Script → Option Output × Script
answered [] s = (none, s)
answered (out ∷ rest) s = (some out, record s { answers = rest })

abbrev pub counted : Command → Script → Script
counted cmd s = record s {
  foreign = if eqb cmd.program (codes "git") then s.foreign else s.foreign + 1;
}

abbrev pub scripted : Machine
scripted = record {
  State = Script;
  output = λ cmd s. answered s.answers (counted cmd s);
  exists = λ path s. true;
  create_dir_all = λ dir s. (true, s);
  remove_dir_all = λ dir s. (true, s);
  remove_file = λ path s. (true, s);
  var = λ name s. s.token;
  id = λ s. 7;
  sleep = λ nanos s. record s { clock = s.clock + nanos };
  now = λ s. s.clock;
  subsec_nanos = λ s. 0;
}

abbrev pub at : List Output → ℕ → Option Text → Running scripted
at answers clock token = record {
  index_counter = 0;
  machine = record { answers = answers; clock = clock; foreign = 0; token = token };
}

abbrev pub answer : Text → Output
answer stdout = record { success = true; stdout = stdout; stderr = [] }

abbrev pub failure : Text → Output
failure stderr = record { success = false; stdout = []; stderr = stderr }

-- No program but git was run.
abbrev pub SameForeign : Script → Script → Type 0
SameForeign s t = t.foreign ≡ s.foreign

answered-foreign : (os : List Output) (s : Script) → (answered os s).1.foreign ≡ s.foreign
answered-foreign [] s = refl
answered-foreign (out ∷ rest) s = refl

counted-Isolated : (cmd : Command) (s : Script) → Isolated cmd → (counted cmd s).foreign ≡ s.foreign
unfolding eqb
counted-Isolated cmd s i = rw i.is_git refl

pub scripted-Holds : Holds scripted SameForeign
scripted-Holds = record {
  preorder = record { same = λ s. refl; after = λ h k. k ∙ h };
  output = λ cmd s i. answered-foreign s.answers (counted cmd s) ∙ counted-Isolated cmd s i;
  create_dir_all = λ dir s. refl;
  remove_dir_all = λ dir s. refl;
  remove_file = λ path s. refl;
  sleep = λ nanos s. refl;
}
