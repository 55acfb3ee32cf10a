-- ===== src/Resolvers/Guard.antt =====
-- What every method `Resolve` begins with: `if depth < 0 { return nil, ErrLoopDetected }`.
use sec_dns.Prelude.{is_negative, if◌then◌else◌}
use sec_dns.Exec.{Resolve, loop_detected, fail}

unfoldable pub guard_depth : {W : Type 0} → Resolve W → Resolve W
guard_depth body depth = if is_negative depth then fail loop_detected else body depth
