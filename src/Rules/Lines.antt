-- ===== src/Rules/Lines.antt =====
-- internal/rules/providers/dnsmasq/conf/types.go: the name that Provide finds in a line, read off the
-- line from left to right.
use sec_dns.Prelude.{
  Option, none, some, ◌||◌, [], ◌∷◌, Text, ◌==◌, if◌then◌else◌, split, split_first, ◌≡◌, refl,
  arith,
}
use sec_dns.Rules.{strip_comment, name_of_line}

-- A text up to a slash, a comment or its end.
abbrev pub up_to : Text → Text
up_to [] = []
up_to (c ∷ cs) = let rest = c ∷ up_to cs in if c == b'/' || c == b'#' then [] else rest

-- What stands behind the first slash, up to the next one, a comment or the end of the line; no name
-- if a comment starts, or the line ends, before a slash.
abbrev pub name_in : Text → Option Text
name_in [] = none
name_in (c ∷ cs) =
    let rest = name_in cs in if c == b'#' then none else if c == b'/' then some (up_to cs) else rest

split_first-up_to : (line : Text) → (split_first b'/' (strip_comment line)).0 ≡ up_to line
unfolding split_first strip_comment
split_first-up_to [] = refl
split_first-up_to (c ∷ cs) = ground (arith, split_first-up_to cs)

-- The name that the code finds, by its regular expression and its split at the slashes.
pub name_of_line-name_in : (line : Text) → name_of_line line ≡ name_in line
unfolding name_of_line split split_first strip_comment
name_of_line-name_in [] = refl
name_of_line-name_in (c ∷ cs) = ground (arith, name_of_line-name_in cs, split_first-up_to cs)
