-- ===== src/Logger/Consistent.antt =====
-- internal/logger: the level that is read is the one that was set, and WithLevel does what the
-- method of the level does.
use sec_dns.Prelude.{
  ◌≡◌, refl, ℤ, pos, negsuc, Bool, true, false, ◌&&◌, List, [], ◌∷◌, if◌then◌else◌, arith,
}
use sec_dns.Logger.{
  Levels, Loggers, less, less_or_equal, default_log_level, initial_loggers, set_timestamp,
  log_level, set_log_level, from_stdout, from_stderr, start_trace, start_debug, start_info,
  start_warning, start_error, start_fatal, start_panic, start_log, with_level,
}

-- Calls of SetTimestamp and SetLogLevel.
pub data Change : Type 0 where
  timestamps : Bool → Change
  to_level : ℤ → Change

abbrev pub apply_each : List Change → Loggers → Loggers
apply_each [] ls = ls
apply_each (timestamps b ∷ cs) ls = apply_each cs (set_timestamp b ls)
apply_each (to_level l ∷ cs) ls = apply_each cs (set_log_level l ls)

-- The level of the last call of SetLogLevel.
abbrev pub last_level : ℤ → List Change → ℤ
last_level l [] = l
last_level l (timestamps b ∷ cs) = last_level l cs
last_level l (to_level l' ∷ cs) = last_level l' cs

either_way : (b : Bool) (l : ℤ) → (if b then l else l) ≡ l
either_way true l = refl
either_way false l = refl

-- Two loggers of one level keep to one level.
log_level-apply_each :
    (cs : List Change) (l : ℤ) (b c : Bool)
    → log_level (
        apply_each cs (record {
          stdout_logger = record { level = l; timestamp = b };
          stderr_logger = record { level = l; timestamp = c };
        }))
      ≡ last_level l cs
unfolding log_level set_timestamp set_log_level
log_level-apply_each [] l b c = either_way (less l l) l
log_level-apply_each (timestamps d ∷ cs) l b c = log_level-apply_each cs l d d
log_level-apply_each (to_level l' ∷ cs) l b c = log_level-apply_each cs l' b c

-- Whatever calls of SetTimestamp and SetLogLevel came before, LogLevel returns the level of the
-- last SetLogLevel, or the default level.
pub log_level-initial_loggers :
    (levels : Levels) (cs : List Change)
    → log_level (apply_each cs (initial_loggers levels)) ≡ last_level (default_log_level levels) cs
unfolding initial_loggers
log_level-initial_loggers levels cs = log_level-apply_each cs (default_log_level levels) true true

-- The documented order of the levels of zerolog, as far as it is used.
pub record Ordered (levels : Levels) : Type 0 where
  pub trace_below : less_or_equal levels.error levels.trace ≡ false
  pub debug_below : less_or_equal levels.error levels.debug ≡ false
  pub info_below : less_or_equal levels.error levels.info ≡ false
  pub warn_below : less_or_equal levels.error levels.warn ≡ false
  pub error_within : less_or_equal levels.error levels.panic ≡ true
  pub fatal_above : less_or_equal levels.error levels.fatal ≡ true
  pub fatal_within : less_or_equal levels.fatal levels.panic ≡ true
  pub none_above : less_or_equal levels.no_level levels.panic ≡ false

less_or_equal_self : (l : ℤ) → less_or_equal l l ≡ true
less_or_equal_self (pos n) = ground arith
less_or_equal_self (negsuc n) = ground arith

-- For levels in the documented order, WithLevel starts the message of the same output, level and
-- form as the method that is named after the level, but never ends the program.
pub with_level-eq :
    (levels : Levels) (ls : Loggers)
    → Ordered levels
    → (with_level levels ls levels.trace ≡ start_trace levels ls)
      × (with_level levels ls levels.debug ≡ start_debug levels ls)
      × (with_level levels ls levels.info ≡ start_info levels ls)
      × (with_level levels ls levels.warn ≡ start_warning levels ls)
      × (with_level levels ls levels.error ≡ start_error levels ls)
      × (with_level levels ls levels.fatal ≡ record (start_fatal levels ls) { ends = false })
      × (with_level levels ls levels.panic ≡ record (start_panic levels ls) { ends = false })
      × (with_level levels ls levels.no_level ≡ start_log levels ls)
unfolding with_level start_trace start_debug start_info start_warning start_error start_fatal
    start_panic start_log
with_level-eq levels ls h = (
  rw h.trace_below refl,
  rw h.debug_below refl,
  rw h.info_below refl,
  rw h.warn_below refl,
  rw (less_or_equal_self levels.error, h.error_within) refl,
  rw (h.fatal_above, h.fatal_within) refl,
  rw (h.error_within, less_or_equal_self levels.panic) refl,
  last (less_or_equal levels.error levels.no_level),
)
  where
    last :
        (b : Bool)
        → (if b && less_or_equal levels.no_level levels.panic
            then from_stderr ls levels.no_level false
            else from_stdout ls levels.no_level false)
          ≡ from_stdout ls levels.no_level false
    last true = rw h.none_above refl
    last false = refl
