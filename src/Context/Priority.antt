-- ===== src/Context/Priority.antt =====
-- crates/laplace-interfaces/src/domain/scheduling.rs.
use laplace.Prelude.{ℕ, Option, none, some, if◌then◌else◌, ◌==◌}

pub data PriorityLevel : Type 0 where
  lowest low normal high critical system_critical : PriorityLevel

unfoldable pub priority_as_u8 : PriorityLevel → ℕ
priority_as_u8 lowest = 0
priority_as_u8 low = 1
priority_as_u8 normal = 2
priority_as_u8 high = 3
priority_as_u8 critical = 4
priority_as_u8 system_critical = 5

unfoldable pub priority_from_u8 : ℕ → Option PriorityLevel
priority_from_u8 value =
    if value == 0
    then some lowest
    else if value == 1
    then some low
    else if value == 2
    then some normal
    else if value == 3
    then some high
    else if value == 4
    then some critical
    else if value == 5
    then some system_critical
    else none
