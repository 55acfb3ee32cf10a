-- ===== src/Config/Program.antt =====
-- main.go: the run of the program, up to Listen; with Name, Version and VersionStatement of
-- internal/core/core.go and Concatenate of internal/common/common.go.
use sec_dns.Prelude.{
  ℕ, Option, none, some, Bool, true, List, [], ◌∷◌, ◌++◌, Text, codes, text_eq, if◌then◌else◌,
}
use sec_dns.Exec.{Error}
use sec_dns.Core.{Instance, Listening, listen}
use sec_dns.Config.Files.{Host, env_key, open_config}
use sec_dns.Config.Loading.{Loaded, loaded_as, refused_by}

-- Concatenate of strings
unfoldable pub concatenate : List Text → Text
concatenate [] = []
concatenate (s ∷ ss) = s ++ concatenate ss

abbrev pub name : Text
name = codes "secDNS"

abbrev pub version : Text
version = codes "1.1.6"

-- VersionStatement; `build` is set when the program is linked
unfoldable pub version_statement : Text → Text → Text → List Text
unfolding concatenate
version_statement build goos goarch =
    concatenate (
      name
      ∷ codes " "
      ∷ version
      ∷ codes " "
      ∷ build
      ∷ codes "("
      ∷ goos
      ∷ codes "/"
      ∷ goarch
      ∷ codes ")"
      ∷ [])
    ∷ codes "A DNS Resolver with custom rules."
    ∷ []

-- The flags -config, -version and -test.
pub record Flags : Type 0 where
  pub config_file_path : Text
  pub print_version : Bool
  pub test : Bool

abbrev pub Environment : Type 0
Environment = Text → Option Text

-- os.Setenv
abbrev pub set_env : Text → Text → Environment → Environment
set_env key value env k = let old = env k in if text_eq k key then some value else old

-- What main calls besides: os.Executable, filepath.Dir and the name of a file.
pub record Machine (F : Type 0) : Type 0 where
  pub host : Host F
  pub executable : Option Text
  pub dir : Text → Text
  pub name_of : F → Text
  pub statement : List Text

-- How a run goes on: `return`, os.Exit, or Listen.
pub data Run (L W : Type 0) : Type 0 where
  returned : Run L W
  exited : ℕ → Run L W
  serves : Listening L W → Run L W

-- What goes to the error output: flag.PrintDefaults, or an error.
pub data Complaint : Type 0 where
  usage : Complaint
  failed_to_open : Complaint
  failed_to_load : Error → Complaint

pub record Session (L W : Type 0) : Type 0 where
  pub printed : List Text
  pub complaints : List Complaint
  pub run : Run L W

abbrev or_empty : Option Text → Text
or_empty none = []
or_empty (some s) = s

module _ {L W F : Type 0} (flags : Flags) (machine : Machine F)
    (load : Environment → F → Option (Loaded (Instance L W))) where
  -- The functions of the system in an environment: os.Getenv is empty for what is not set.
  abbrev pub system : Environment → Host F
  system env = record machine.host { getenv = λ k. or_empty (env k) }

  abbrev pub config_dir_key : Text
  config_dir_key = env_key machine.host (codes "config" ∷ codes "dir" ∷ codes "path" ∷ [])

  -- The directory of the program, unless the variable is set.
  abbrev pub set_if_unset : Option Text → Environment → Environment
  set_if_unset (some value) env = env
  set_if_unset none env = elim machine.executable [
    | none ↦ env
    | some path ↦ set_env config_dir_key (machine.dir path) env
  ]

  abbrev pub not_opened : Session L W
  not_opened =
      if text_eq flags.config_file_path []
      then record { printed = machine.statement; complaints = usage ∷ []; run = exited 0 }
      else record { printed = machine.statement; complaints = failed_to_open ∷ []; run = exited 1 }

  -- From LoadConfig on.
  abbrev pub after_loading : Loaded (Instance L W) → Session L W
  after_loading (refused_by e) = record {
    printed = machine.statement;
    complaints = failed_to_load e ∷ [];
    run = exited 1;
  }
  after_loading (loaded_as i) =
      if flags.test
      then record {
        printed = machine.statement ++ codes "config: Syntax is OK" ∷ [];
        complaints = [];
        run = exited 0;
      }
      else record {
        printed = machine.statement;
        complaints = [];
        run = serves (listen true true i);
      }

  abbrev pub loading : Option (Loaded (Instance L W)) → Option (Session L W)
  loading none = none
  loading (some x) = some (after_loading x)

  abbrev pub opened : Option F → Environment → Option (Session L W)
  opened none env = some not_opened
  opened (some file) env =
      loading (load (set_env config_dir_key (machine.dir (machine.name_of file)) env) file)

  abbrev pub started_in : Environment → Option (Session L W)
  started_in env = opened (open_config (system env) flags.config_file_path) env

  -- `main`; `none` if the model of LoadConfig ran out of fuel.
  unfoldable pub main : Environment → Option (Session L W)
  unfolding env_key open_config listen
  main env =
      if flags.print_version
      then some (record { printed = machine.statement; complaints = []; run = returned })
      else started_in (set_if_unset (env config_dir_key) env)
