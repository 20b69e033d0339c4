-- ===== src/Cli/Env.antt =====
-- What src/eous/cli.py takes from outside: the parsed arguments, the file system, Python's tables of
-- characters, `repr` and `json.dumps`, and the installed versions. `analyse` is the iteration over
-- `pool.analyse(paths, report.analyse)`, which Cli/Analyses.antt makes of the model of the pool.
use eous.Prelude.{ℕ, ◌≤◌, ◌≡◌, Bool, true, false, List, Option}
use eous.Prelude.Text.{Text}
use eous.Prelude.Outcome.{Outcome}
use eous.Prelude.Exception.{Exception}
use eous.Prelude.Float.{Float}
use eous.Report.{FilePath, Analysis}
use eous.Cli.Console.{Stdout}
use eous.Cli.Json.{Json}

module _ (N : Float) where
  open N use {F}

  -- The names of `args` that the commands read. What is not given is `none`, or empty.
  pub record Options : Type 0 where
    pub version : Bool
    pub command : Text
    pub paths : List FilePath
    pub left : Option Text
    pub right : Option Text
    pub query : Option Text
    pub known : Option FilePath
    pub top : ℕ
    pub minimum : F
    pub quiet : Bool
    pub json : Bool

  pub record Env : Type 0 where
    pub stdout : Stdout
    -- `Path(text)`
    pub to_path : Text → FilePath
    pub is_file : Text → Bool
    pub has_suffix : Text → Bool
    pub path_le : FilePath → FilePath → Bool
    pub walk : FilePath → Option (List FilePath)
    pub real : FilePath → FilePath
    -- Of the directories below a path that cannot be read, `filename` and `strerror`.
    pub failures : FilePath → List (FilePath × Text)
    pub read_text : FilePath → Outcome Exception Text
    pub analyse : List FilePath → Outcome Exception (List Analysis)
    pub printable : ℕ → Bool
    pub is_space : ℕ → Bool
    pub is_break : ℕ → Bool
    pub repr : Text → Text
    pub dumps : Json F → Text
    -- `parser.print_usage`
    pub usage : Text
    pub installed : Option Text
    pub iced_version : Text
    pub lief_version : Text

  -- What Python documents of its characters: the visible ASCII characters are printable and no white
  -- space, a space is white space, and only a newline of the characters that are not printable
  -- needs to be known as a line break.
  pub record IsUnicode (E : Env) : Type 0 where
    pub printable_ascii : (c : ℕ) → b' ' ≤ c → c ≤ b'~' → E.printable c ≡ true
    pub visible : (c : ℕ) → b'!' ≤ c → c ≤ b'~' → E.is_space c ≡ false
    pub space : E.is_space b' ' ≡ true
    pub unbroken : (c : ℕ) → E.printable c ≡ true → E.is_break c ≡ false
    pub newline : E.is_break 10 ≡ true
