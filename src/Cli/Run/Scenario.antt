-- ===== src/Cli/Run/Scenario.antt =====
-- Sketches, files, consoles and arguments that the tests of the commands share.
use eous.Prelude.{
  ℕ, ◌+◌, ◌^◌, refl, Bool, true, false, ◌&&◌, List, [], ◌∷◌, leb, arith, none, some, ◌==◌,
  if◌then◌else◌,
}
use eous.Prelude.Text.{codes, contains}
use eous.Prelude.Outcome.{ok}
use eous.Prelude.Exception.{broken_pipe}
use eous.Prelude.Fixed.{fixed_point}
use eous.Digest.{Sketch}
use eous.Digest.Accepts.{IsValid}
use eous.Digest.RoundTrip.{sketch_text}
use eous.Report.{FilePath, Analysis, crashed}
use eous.Cli.Console.{Stdout}
use eous.Cli.Env.{Env, Options, IsUnicode}

abbrev pub small : Sketch
small = record { target = codes "elf64"; cardinality = 1200; slots = 4 ^ 40 + 27 }

abbrev pub large : Sketch
large = record { target = codes "elf64"; cardinality = 3000; slots = 4 ^ 40 + 26 }

abbrev pub windows : Sketch
windows = record { target = codes "pe32"; cardinality = 900; slots = 5 }

pub small-IsValid : IsValid small
small-IsValid = record {
  known_target = unfold contains in refl;
  bounded = omega arith;
  fits = omega arith;
}

abbrev pub is_space : ℕ → Bool
is_space c = c == 32

-- One file with a digest, and one whose analysis crashed.
abbrev pub found : List Analysis
found =
    record { path = codes "a"; digest = some (sketch_text small); refusal = none }
    ∷ crashed (codes "b")
    ∷ []

abbrev pub first_le : FilePath → FilePath → Bool
first_le [] t = true
first_le (c ∷ s) [] = false
first_le (c ∷ s) (d ∷ t) = if c == d then first_le s t else leb c d

-- A system with files only, whose standard output answers as told.
abbrev pub env : Stdout → Env fixed_point
env stdout = record {
  stdout = stdout;
  to_path = λ s. s;
  is_file = λ s. false;
  has_suffix = λ s. false;
  path_le = first_le;
  walk = λ path. none;
  real = λ path. path;
  failures = λ path. [];
  read_text = λ path. ok [];
  analyse = λ paths. ok found;
  printable = λ c. leb b' ' c && leb c b'~';
  is_space = is_space;
  is_break = λ c. c == 10;
  repr = λ s. s;
  dumps = λ json. [];
  usage = codes "usage: eous";
  installed = none;
  iced_version = codes "1";
  lief_version = codes "1";
}

abbrev pub open_stdout : Stdout
open_stdout = record { writing = λ out line. none; flushing = λ out. none }

abbrev pub closed_stdout : Stdout
closed_stdout = record {
  writing = λ out line. some (broken_pipe (codes "Broken pipe"));
  flushing = λ out. some (broken_pipe (codes "Broken pipe"));
}

abbrev pub arguments : Options fixed_point
arguments = record {
  version = false;
  command = codes "hash";
  paths = codes "a" ∷ codes "b" ∷ [];
  left = none;
  right = none;
  query = none;
  known = none;
  top = 10;
  minimum = 0;
  quiet = false;
  json = false;
}

pub env-IsUnicode : IsUnicode fixed_point (env open_stdout)
env-IsUnicode = record {
  printable_ascii = λ c h k. ground arith;
  visible = λ c h k. ground arith;
  space = refl;
  unbroken = λ c h. ground arith;
  newline = refl;
}
