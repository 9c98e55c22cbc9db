-- ===== src/Domain/Base.antt =====
-- Primitives shared by the contracts (src/rumor_mill/engine/domain/base.py). A datetime is an
-- instant in microseconds with a flag that says whether it carries a timezone; a UUID is a
-- number. A text's length is its number of code points.
use rumor_mill_ai.Prelude.{
  ℕ, suc, String, Bool, true, false, not, ◌&&◌, ◌||◌, Option, none, some, ltb, Result, ok, raise_if,
  ◌>>◌, value_error,
}

pub record Datetime : Type 0 where
  pub instant : ℕ
  pub aware : Bool

pub data Visibility : Type 0 where
  public participants private engine_only : Visibility

pub data LifecycleStatus : Type 0 where
  active retracted superseded archived : LifecycleStatus

pub data ProvenanceKind : Type 0 where
  authored observed reported inferred generated derived : ProvenanceKind

pub record Provenance : Type 0 where
  pub kind : ProvenanceKind
  pub source_id : Option ℕ
  pub recorded_at : Datetime
  pub detail : Option String

pub record Lifecycle : Type 0 where
  pub status : LifecycleStatus
  pub started_at : Datetime
  pub ended_at : Option Datetime
  pub supersedes_id : Option ℕ
  pub reason : Option String

unfoldable pub text_length : String → ℕ
text_length String.[] = 0
text_length (String.◌∷◌ c s) = suc (text_length s)

-- `min_length` and `max_length` of a text field.
unfoldable pub check_text : String → (lo hi : ℕ) → Result (Unit {0})
unfolding text_length
check_text s lo hi =
    raise_if (ltb (text_length s) lo || ltb hi (text_length s))
      (value_error "string length out of range")

abbrev pub check_optional_text : Option String → ℕ → Result (Unit {0})
check_optional_text none hi = ok tt
check_optional_text (some s) hi = check_text s 0 hi

unfoldable pub require_aware : Datetime → Result (Unit {0})
require_aware value = raise_if (not value.aware) (value_error "must include a timezone")

abbrev pub require_aware_optional : Option Datetime → Result (Unit {0})
require_aware_optional none = ok tt
require_aware_optional (some value) = require_aware value

abbrev pub before : Datetime → Datetime → Bool
before a b = ltb a.instant b.instant

abbrev pub before_optional : Option Datetime → Datetime → Bool
before_optional none b = false
before_optional (some a) b = before a b

abbrev pub is_none {ℓ} : {A : Type ℓ} → Option A → Bool
is_none none = true
is_none (some a) = false

abbrev pub is_authored : ProvenanceKind → Bool
is_authored authored = true
is_authored _ = false

abbrev pub is_active : LifecycleStatus → Bool
is_active active = true
is_active _ = false

abbrev pub is_superseded : LifecycleStatus → Bool
is_superseded superseded = true
is_superseded _ = false

-- `Provenance(...)`
unfoldable pub make_provenance : Provenance → Result Provenance
unfolding check_text require_aware
make_provenance p = do
  check_optional_text p.detail 500
  require_aware p.recorded_at
  raise_if (not (is_authored p.kind) && is_none p.source_id)
      (value_error "non-authored provenance requires source_id")
  ok p

-- `Lifecycle(...)`
unfoldable pub make_lifecycle : Lifecycle → Result Lifecycle
unfolding check_text require_aware
make_lifecycle l = do
  check_optional_text l.reason 500
  require_aware l.started_at
  require_aware_optional l.ended_at
  raise_if (before_optional l.ended_at l.started_at)
      (value_error "ended_at cannot be before started_at")
  raise_if (is_active l.status && not (is_none l.ended_at))
      (value_error "active lifecycle cannot have ended_at")
  raise_if (not (is_active l.status) && is_none l.ended_at)
      (value_error "inactive lifecycle requires ended_at")
  raise_if (is_superseded l.status && is_none l.supersedes_id)
      (value_error "superseded lifecycle requires supersedes_id")
  ok l

-- `Lifecycle(started_at=t)`, with its defaults.
unfoldable pub started : Datetime → Lifecycle
started t = record {
  status = active;
  started_at = t;
  ended_at = none;
  supersedes_id = none;
  reason = none;
}
