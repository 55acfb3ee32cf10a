-- ===== src/Config/Files.antt =====
-- main.go, internal/core/core.go, internal/common/common.go: where files are looked for. The
-- environment and the file system are parameters.
use sec_dns.Prelude.{Option, none, some, List, [], ◌∷◌, ◌++◌, Text, codes, text_eq, if◌then◌else◌}

-- The loop of SnakeCaseConcatenate, with what the builder holds.
abbrev pub snake_case_onto : Text → List Text → Text
snake_case_onto built [] = built
snake_case_onto built (s ∷ ss) =
    if text_eq s []
    then snake_case_onto built ss
    else if text_eq built []
    then snake_case_onto s ss
    else snake_case_onto (built ++ (codes "_" ++ s)) ss

-- SnakeCaseConcatenate of strings
unfoldable pub snake_case_concatenate : List Text → Text
snake_case_concatenate a = snake_case_onto [] a

-- What the program calls of os, path/filepath and strings; `try_open` is `none` for an error.
pub record Host (F : Type 0) : Type 0 where
  pub to_upper : Text → Text
  pub getenv : Text → Text
  pub join_path : Text → Text → Text
  pub try_open : Text → Option F
  pub stdin : F

module _ {F : Type 0} (sys : Host F) where
  unfoldable pub env_key : List Text → Text
  unfolding snake_case_concatenate
  env_key key = sys.to_upper (snake_case_concatenate (codes "secDNS" ∷ key))

  abbrev pub or_open : Option F → Option F → Option F
  or_open none rest = rest
  or_open (some f) rest = some f

  abbrev config_dir : Text
  config_dir = env_key (codes "config" ∷ codes "dir" ∷ codes "path" ∷ [])

  abbrev config_file : Text
  config_file = env_key (codes "config" ∷ codes "file" ∷ codes "path" ∷ [])

  -- The path in the directory that an environment variable names, if it names one.
  abbrev open_below : Text → Text → Option F
  open_below env path = if text_eq env [] then none else sys.try_open (sys.join_path env path)

  abbrev open_named : Text → Option F
  open_named env = if text_eq env [] then none else sys.try_open env

  -- OpenFile of internal/core
  unfoldable pub open_file_at : Text → Option F
  unfolding env_key
  open_file_at path = or_open (sys.try_open path) (open_below (sys.getenv config_dir) path)

  -- `open` of main.go
  unfoldable pub open_config : Text → Option F
  unfolding env_key open_file_at
  open_config path =
      if text_eq path []
      then or_open (open_named (sys.getenv config_file)) (
          or_open (open_below (sys.getenv config_dir) (codes "config.json"))
            (sys.try_open (codes "config.json")))
      else if text_eq path (codes "-")
      then some sys.stdin
      else open_file_at path
