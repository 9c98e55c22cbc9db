-- ===== src/Scenes/Plan.antt =====
-- PlotIntent, ScenePlan and ScenePlanner (src/rumor_mill/engine/scene_generation.py).
use rumor_mill_ai.Prelude.{
  ℕ, suc, String, Bool, true, false, not, ◌||◌, Option, none, some, List, [], ◌∷◌, ◌++◌, select,
  any, take, contains, subset, ◌==◌, Result, Exc, ok, raise, raise_if, ◌>>=◌, ◌>>◌, value_error,
}
use rumor_mill_ai.Prelude.Int.{ℤ, pos}
use rumor_mill_ai.Prelude.Order.{sort_by}
use rumor_mill_ai.Floats.{Floats, is_unit}
use rumor_mill_ai.Domain.Base.{Datetime, check_text}
use rumor_mill_ai.Domain.Subjective.{is_empty}

-- A loop of checks.
abbrev pub check_each : {A : Type 0} → (A → Result (Unit {0})) → List A → Result (Unit {0})
check_each check [] = ok tt
check_each check (x ∷ xs) = check x >> check_each check xs

-- `NonEmptyText`
unfoldable pub check_nonempty : String → Result (Unit {0})
unfolding check_text
check_nonempty s = check_text s 1 4000

-- `Field(min_length=1)` of a tuple.
abbrev pub check_some : {A : Type 0} → List A → Result (Unit {0})
check_some xs = raise_if (is_empty xs) (value_error "tuple is too short")

pub record ContextItem (C : Type 0) : Type 0 where
  pub content : String
  pub character_ids : List ℕ
  pub location_id : Option ℕ
  pub salience : C

pub record PlotIntent (C : Type 0) : Type 0 where
  pub run_id : ℕ
  pub scheduled_at : Datetime
  pub candidate_participant_ids : List ℕ
  pub available_location_ids : List ℕ
  pub goals : List String
  pub constraints : List String
  pub context : List (ContextItem C)
  pub preferred_participant_ids : List ℕ
  pub preferred_location_id : Option ℕ

pub record ScenePlan (C : Type 0) : Type 0 where
  pub run_id : ℕ
  pub scheduled_at : Datetime
  pub participant_ids : List ℕ
  pub location_id : ℕ
  pub authored_location_id : Option String
  pub goals : List String
  pub constraints : List String
  pub relevant_context : List (ContextItem C)

abbrev pub offered : List ℕ → Option ℕ → Bool
offered locations none = true
offered locations (some i) = contains i locations

-- `list(dict.fromkeys(ids))`: the first occurrences, in order.
unfoldable pub distinct : List ℕ → List ℕ
distinct [] = []
distinct (i ∷ ids) = i ∷ select (λ j. not (j == i)) (distinct ids)

abbrev pub is_at : Option ℕ → ℕ → Bool
is_at none i = false
is_at (some j) i = j == i

pub record ScenePlanner : Type 0 where
  pub max_participants : ℕ
  pub context_limit : ℕ

-- `ScenePlanner(...)`
unfoldable pub make_planner : (max_participants context_limit : ℤ) → Result ScenePlanner
make_planner (pos (suc m)) (pos k) = ok (record { max_participants = suc m; context_limit = k })
make_planner _ _ = raise (value_error "planner limits must be positive")

-- `preferred or available[0]`; a UUID is always true.
abbrev pub place : Option ℕ → List ℕ → Result ℕ
place (some i) locations = ok i
place none [] = raise (Exc.other "IndexError")
place none (i ∷ locations) = ok i

module _ (F : Floats) where
  open F use {Carrier, le}

  -- `ContextItem(...)`
  unfoldable pub check_item : ContextItem Carrier → Result (Unit {0})
  unfolding check_nonempty
  check_item item = do
    check_nonempty item.content
    raise_if (not (is_unit F item.salience)) (value_error "salience out of range")

  -- `PlotIntent(...)`
  unfoldable pub make_intent : PlotIntent Carrier → Result (PlotIntent Carrier)
  unfolding check_item check_nonempty
  make_intent i = do
    check_some i.candidate_participant_ids
    check_some i.available_location_ids
    check_some i.goals
    check_each check_nonempty i.goals
    check_each check_nonempty i.constraints
    check_each check_item i.context
    raise_if (not i.scheduled_at.aware) (value_error "scheduled_at must be timezone-aware")
    raise_if (not (subset i.preferred_participant_ids i.candidate_participant_ids))
        (value_error "preferred participants must be candidates")
    raise_if (not (offered i.available_location_ids i.preferred_location_id))
        (value_error "preferred location must be available")
    ok i

  -- `ScenePlan(...)`
  unfoldable pub make_plan : ScenePlan Carrier → Result (ScenePlan Carrier)
  unfolding check_item
  make_plan p = do check_some p.participant_ids; check_some p.goals; ok p

  abbrev pub participants : PlotIntent Carrier → List ℕ
  participants i =
      let preferred = distinct i.preferred_participant_ids in
      preferred ++ select (λ c. not (contains c preferred)) i.candidate_participant_ids

  abbrev pub is_relevant : List ℕ → ℕ → ContextItem Carrier → Bool
  is_relevant selected location_id item =
      is_empty item.character_ids
      || any (λ c. contains c selected) item.character_ids
      || is_at item.location_id location_id

  abbrev pub more_salient : ContextItem Carrier → ContextItem Carrier → Bool
  more_salient a b = le b.salience a.salience

  -- The arguments of `ScenePlan(...)`.
  abbrev pub draft : ScenePlanner → PlotIntent Carrier → ℕ → ScenePlan Carrier
  draft planner i location_id =
      let selected = take planner.max_participants (participants i) in
      let relevant = sort_by more_salient (select (is_relevant selected location_id) i.context) in
      record {
        run_id = i.run_id;
        scheduled_at = i.scheduled_at;
        participant_ids = selected;
        location_id = location_id;
        authored_location_id = none;
        goals = i.goals;
        constraints = i.constraints;
        relevant_context = take planner.context_limit relevant;
      }

  -- `ScenePlanner.plan`
  unfoldable pub plan : ScenePlanner → PlotIntent Carrier → Result (ScenePlan Carrier)
  unfolding distinct sort_by make_plan
  plan planner i = place i.preferred_location_id i.available_location_ids >>= λ location_id.
      make_plan (draft planner i location_id)
