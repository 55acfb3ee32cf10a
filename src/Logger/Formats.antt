-- ===== src/Logger/Formats.antt =====
-- internal/logger/console.go: how the level of a message is written.
use sec_dns.Prelude.{
  Bool, true, false, [], ◌∷◌, ◌++◌, Text, codes, text_eq, take, length, ltb, Option, none, some,
  not, ◌&&◌, if◌then◌else◌,
}

-- The fields of a zerolog.ConsoleWriter that the program sets: `O` are the writers.
pub record ConsoleWriter (O : Type 0) : Type 0 where
  pub out : O
  pub no_color : Bool

-- stdoutConsoleWriter and stderrConsoleWriter
pub record ConsoleWriters (O : Type 0) : Type 0 where
  pub stdout_writer : ConsoleWriter O
  pub stderr_writer : ConsoleWriter O

unfoldable pub new_console_writer : {O : Type 0} → Text → O → ConsoleWriter O
new_console_writer term output = record { out = output; no_color = text_eq term [] }

-- The escape character with a number and `m`.
abbrev pub escape : Text → Text
escape number = 27 ∷ codes "[" ++ (number ++ codes "m")

-- colorize of a string; the colour is the decimal number of the constant
unfoldable pub colorize : Text → Text → Bool → Text
colorize s c disabled = if disabled then s else escape c ++ (s ++ escape (codes "0"))

-- What zerolog hands to the formatter: a string, nil, or another value by its text.
pub data Field : Type 0 where
  string : Text → Field
  nil : Field
  value : Text → Field

-- The cases of the `switch`, with the word and the colour, and whether it is bold too.
pub record Word : Type 0 where
  pub word : Text
  pub color : Text
  pub is_bold : Bool

abbrev pub word_of : Text → Word
word_of ll =
    if text_eq ll (codes "trace")
    then record { word = codes "Trace"; color = codes "36"; is_bold = false }
    else if text_eq ll (codes "debug")
    then record { word = codes "Debug"; color = codes "34"; is_bold = false }
    else if text_eq ll (codes "info")
    then record { word = codes "Info"; color = codes "32"; is_bold = false }
    else if text_eq ll (codes "warn")
    then record { word = codes "Warning"; color = codes "33"; is_bold = false }
    else if text_eq ll (codes "error")
    then record { word = codes "Error"; color = codes "31"; is_bold = true }
    else if text_eq ll (codes "fatal")
    then record { word = codes "Fatal"; color = codes "35"; is_bold = true }
    else if text_eq ll (codes "panic")
    then record { word = codes "Panic"; color = codes "35"; is_bold = true }
    else record { word = codes "???"; color = codes "1"; is_bold = false }

abbrev pub painted : Word → Bool → Text
painted w disabled =
    let inner = colorize w.word w.color disabled in
    if w.is_bold then colorize inner (codes "1") disabled else inner

-- The formatter; `none` is a panic, for the slice of a text of less than three bytes.
module _ (to_upper : Text → Text) where
  abbrev pub label_of : Field → Bool → Option Text
  label_of (string ll) disabled = some (painted (word_of ll) disabled)
  label_of nil disabled = some (colorize (codes "???") (codes "1") disabled)
  label_of (value v) disabled =
      if ltb (length (to_upper v)) 3 then none else some (take 3 (to_upper v))

  unfoldable pub level_formatter : {O : Type 0} → ConsoleWriter O → Field → Option Text
  unfolding colorize
  level_formatter w i = elim (label_of i w.no_color) [
    | none ↦ none
    | some l ↦ some (codes "[" ++ (l ++ codes "]"))
  ]

module _ {O : Type 0} where
  unfoldable pub has_color : ConsoleWriters O → Bool
  has_color ws = not ws.stdout_writer.no_color && not ws.stderr_writer.no_color

  unfoldable pub set_color : Bool → ConsoleWriters O → ConsoleWriters O
  set_color color ws = record {
    stdout_writer = record ws.stdout_writer { no_color = not color };
    stderr_writer = record ws.stderr_writer { no_color = not color };
  }

  unfoldable pub output : ConsoleWriters O → O
  output ws = ws.stdout_writer.out

  unfoldable pub set_output : O → ConsoleWriters O → ConsoleWriters O
  set_output out ws = record ws { stdout_writer = record ws.stdout_writer { out = out } }

  unfoldable pub error_output : ConsoleWriters O → O
  error_output ws = ws.stderr_writer.out

  unfoldable pub set_error_output : O → ConsoleWriters O → ConsoleWriters O
  set_error_output out ws = record ws { stderr_writer = record ws.stderr_writer { out = out } }
