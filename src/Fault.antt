-- ===== src/Fault.antt =====
-- pkg/fault/class.go and pkg/fault/fault.go: the classes of faults, what they say of themselves, and
-- the chains of errors that carry them. A name of an operation, a lane or a node is only compared, so
-- a number stands for it, and 0 for the empty one.
pub mod Whole
pub mod Policy
pub mod Delays
use canal.Prelude.{ℕ, Bool, true, false, Option, none, some, ltb, ◌==◌, ◌&&◌, ◌||◌, if◌then◌else◌}

pub data Class : Type 0 where
  unclassified transient_upstream transient_internal throttled indeterminate : Class
  permanent_upstream permanent_internal permanent_mapping permanent_contract : Class
  duplicate_idempotent clock_skew fenced not_connected end_of_input : Class

-- The order in which class.go declares the classes.
abbrev pub code : Class → ℕ
code unclassified = 0
code transient_upstream = 1
code transient_internal = 2
code throttled = 3
code indeterminate = 4
code permanent_upstream = 5
code permanent_internal = 6
code permanent_mapping = 7
code permanent_contract = 8
code duplicate_idempotent = 9
code clock_skew = 10
code fenced = 11
code not_connected = 12
code end_of_input = 13

abbrev pub is_class : Class → Class → Bool
is_class a b = code a == code b

unfoldable pub terminal : Class → Bool
terminal permanent_upstream = true
terminal permanent_internal = true
terminal permanent_mapping = true
terminal permanent_contract = true
terminal c = false

unfoldable pub counted : Class → Bool
counted throttled = false
counted not_connected = false
counted end_of_input = false
counted c = true

pub data Blame : Type 0 where
  upstream config canal_itself : Blame

unfoldable pub blames : Class → Blame
blames transient_upstream = upstream
blames permanent_upstream = upstream
blames duplicate_idempotent = upstream
blames throttled = upstream
blames permanent_mapping = config
blames permanent_contract = config
blames clock_skew = config
blames transient_internal = canal_itself
blames permanent_internal = canal_itself
blames fenced = canal_itself
blames unclassified = canal_itself
blames indeterminate = upstream
blames not_connected = upstream
blames end_of_input = upstream

-- The fields of a Fault that the code reads, without the cause that it wraps.
pub record Label : Type 0 where
  pub class : Class
  pub op : ℕ
  pub lane : ℕ
  pub node : ℕ
  pub rec : ℕ
  pub retry_after : ℕ

-- An error: nil, one of no known type, one that wraps another (fmt.Errorf with %w), one that joins
-- two (errors.Join), and a fault over its cause.
pub data Error : Type 0 where
  nil opaque : Error
  wrap : Error → Error
  join : Error → Error → Error
  fault : Label → Error → Error

-- New, and the constructors that are named after a class.
unfoldable pub new : Class → ℕ → Error → Error
new c op cause =
    fault (record { class = c; op = op; lane = 0; node = 0; rec = 0; retry_after = 0 }) cause

unfoldable pub throttle : ℕ → ℕ → Error → Error
throttle op after cause =
    fault (record { class = throttled; op = op; lane = 0; node = 0; rec = 0; retry_after = after })
      cause

unfoldable pub is : Label → Label → Bool
is f t =
    is_class t.class f.class
    && (t.op == 0 || t.op == f.op)
    && (t.lane == 0 || t.lane == f.lane)
    && (t.node == 0 || t.node == f.node)
    && (t.rec == 0 || t.rec == f.rec)

abbrev pub or_else {ℓ} : {A : Type ℓ} → Option A → Option A → Option A
or_else none later = later
or_else (some a) later = some a

-- errors.As into a *Fault: the first one, depth first.
unfoldable pub as_fault : Error → Option Label
as_fault nil = none
as_fault opaque = none
as_fault (wrap e) = as_fault e
as_fault (join e f) = or_else (as_fault e) (as_fault f)
as_fault (fault l e) = some l

unfoldable pub class_of : Error → Class
unfolding as_fault
class_of e = elim (as_fault e) [ none ↦ unclassified | some l ↦ l.class ]

-- errors.Unwrap of a join is nil, so the walk ends there.
unfoldable pub retry_after_of : Error → Option ℕ
retry_after_of nil = none
retry_after_of opaque = none
retry_after_of (wrap e) = retry_after_of e
retry_after_of (join e f) = none
retry_after_of (fault l e) = if ltb 0 l.retry_after then some l.retry_after else retry_after_of e
