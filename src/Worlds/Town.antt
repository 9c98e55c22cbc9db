-- ===== src/Worlds/Town.antt =====
-- TownState (src/rumor_mill/worlds/town_state.py). A dictionary comprehension keeps the last of
-- several values of a key. Names are compared by code points.
use Prim.Native.Nat.{Ordering}
use Prim.Native.String.{compare}
use rumor_mill_ai.Prelude.{
  ℕ, String, Bool, true, false, not, ◌&&◌, ◌||◌, Option, none, some, List, [], ◌∷◌, map, select,
  any, contains, subset, dedup_from, find_first, ◌==◌, leb, ltb, str_eq, if◌then◌else◌, Result, ok,
  raise, raise_if, ◌>>=◌, ◌>>◌, key_error, value_error,
}
use rumor_mill_ai.Prelude.Order.{sort_by}
use rumor_mill_ai.Domain.Base.{Visibility}
use rumor_mill_ai.Worlds.Authoring.{
  AuthoredCharacter, AuthoredLocation, AuthoredRoutine, AuthoredTravelRoute, WorldDefinition,
}

pub record PublicPresence : Type 0 where
  pub character_id : ℕ
  pub character_name : String
  pub location_id : ℕ
  pub location_name : String
  pub activity : String

pub record CharacterLocationState : Type 0 where
  pub character_id : ℕ
  pub home_location_id : Option ℕ
  pub home_location_name : Option String
  pub current_location_id : Option ℕ
  pub current_location_name : Option String
  pub publicly_present : Bool

abbrev pub is_public : Visibility → Bool
is_public Visibility.public = true
is_public _ = false

-- The last element that passes the test.
abbrev pub find_last : {A : Type 0} → (A → Bool) → List A → Option A
find_last p [] = none
find_last p (x ∷ xs) = elim (find_last p xs) [
  | none ↦ (if p x then some x else none)
  | some y ↦ some y
]

-- `self._characters[i]` and `self._locations[i]`
abbrev pub require : {A : Type 0} → Option A → Result A
require none = raise key_error
require (some a) = ok a

abbrev pub character_of : WorldDefinition → ℕ → Option AuthoredCharacter
character_of world i = find_last (λ c. c.id == i) world.cast

abbrev pub location_of : WorldDefinition → ℕ → Option AuthoredLocation
location_of world i = find_last (λ l. l.id == i) world.locations

abbrev pub is_known : {A : Type 0} → Option A → Bool
is_known none = false
is_known (some a) = true

-- `_validate_day`
abbrev pub validate_day : ℕ → Result (Unit {0})
validate_day day =
    raise_if (not (leb 1 day && leb day 14)) (value_error "day must be between 1 and 14")

abbrev pub is_active_at : (day at : ℕ) → AuthoredRoutine → Bool
is_active_at day at r = contains day r.days && (leb r.start_time at && ltb at r.end_time)

-- `_active_routines`
unfoldable pub active_routines : WorldDefinition → (day at : ℕ) → Result (List AuthoredRoutine)
active_routines world day at = do validate_day day; ok (select (is_active_at day at) world.routines)

abbrev pub activity_of : AuthoredRoutine → String
activity_of r = elim (r.public_activity) [
  | none ↦ r.activity
  | some s ↦ (if str_eq s "" then r.activity else s)
]

unfoldable pub presence : WorldDefinition → AuthoredRoutine → Result PublicPresence
presence world r = do
  character ← require (character_of world r.character_id)
  location ← require (location_of world r.location_id)
  ok (record {
    character_id = character.id;
    character_name = character.name;
    location_id = location.id;
    location_name = location.name;
    activity = activity_of r;
  })

abbrev pub cons_presence : PublicPresence → List PublicPresence → Result (List PublicPresence)
cons_presence p ps = ok (p ∷ ps)

-- The loop of `public_presence`.
unfoldable pub presences : WorldDefinition → List AuthoredRoutine → Result (List PublicPresence)
unfolding presence
presences world [] = ok []
presences world (r ∷ rs) =
    let rest = presences world rs in
    if not (is_public r.visibility)
    then rest
    else (presence world r >>= λ p. rest >>= cons_presence p)

abbrev pub text_le : String → String → Bool
text_le a b = elim (compare a b) [ Ordering.gt ↦ false | _ ↦ true ]

abbrev pub presence_order : PublicPresence → PublicPresence → Bool
presence_order a b =
    if str_eq a.location_name b.location_name
    then text_le a.character_name b.character_name
    else text_le a.location_name b.location_name

unfoldable pub public_presence : WorldDefinition → (day at : ℕ) → Result (List PublicPresence)
unfolding active_routines presences sort_by
public_presence world day at = do
  active ← active_routines world day at
  found ← presences world active
  ok (sort_by presence_order found)

-- `active_location_ids`, whose members are at most one: no order is needed.
abbrev pub location_ids : List AuthoredRoutine → List ℕ
location_ids rs = dedup_from [] (map (λ r. r.location_id) rs)

abbrev pub only_id : List ℕ → Result (Option ℕ)
only_id [] = ok none
only_id (i ∷ []) = ok (some i)
only_id (i ∷ j ∷ is) = raise (value_error "ambiguous current location")

abbrev pub optional_location : WorldDefinition → Option ℕ → Result (Option AuthoredLocation)
optional_location world none = ok none
optional_location world (some i) = require (location_of world i) >>= λ l. ok (some l)

abbrev pub id_of : Option AuthoredLocation → Option ℕ
id_of none = none
id_of (some l) = some l.id

abbrev pub name_of : Option AuthoredLocation → Option String
name_of none = none
name_of (some l) = some l.name

-- The routines of one character, and the state that they determine.
unfoldable pub state_of :
    WorldDefinition → AuthoredCharacter → List AuthoredRoutine → Result CharacterLocationState
state_of world character active = do
  current_id ← only_id (location_ids active)
  current ← optional_location world current_id
  home ← optional_location world character.home_location_id
  ok (record {
    character_id = character.id;
    home_location_id = id_of home;
    home_location_name = name_of home;
    current_location_id = id_of current;
    current_location_name = name_of current;
    publicly_present = any (λ r. is_public r.visibility) active;
  })

unfoldable pub character_location_state :
    WorldDefinition → (character_id day at : ℕ) → Result CharacterLocationState
unfolding active_routines state_of
character_location_state world character_id day at = do
  character ← require (character_of world character_id)
  active ← active_routines world day at
  state_of world character (select (λ r. r.character_id == character_id) active)

unfoldable pub public_presence_at :
    WorldDefinition → (location_id day at : ℕ) → Result (List PublicPresence)
unfolding public_presence
public_presence_at world location_id day at = do
  raise_if (not (is_known (location_of world location_id))) key_error
  found ← public_presence world day at
  ok (select (λ p. p.location_id == location_id) found)

-- `scheduled`, the characters that are authored at the location.
abbrev pub scheduled_at : WorldDefinition → (location_id day at : ℕ) → List ℕ
scheduled_at world location_id day at =
    map (λ r. r.character_id)
      (select (λ r. r.location_id == location_id && is_active_at day at r) world.routines)

unfoldable pub can_stage_scene : WorldDefinition → List ℕ → (location_id day at : ℕ) → Result Bool
can_stage_scene world participant_ids location_id day at = do
  validate_day day
  raise_if (not (is_known (location_of world location_id))) key_error
  raise_if (any (λ i. not (is_known (character_of world i))) participant_ids) key_error
  ok (subset participant_ids (scheduled_at world location_id day at))

-- The routes that lead from `a` to `b`, and the loop over them.
abbrev pub leads : ℕ → ℕ → AuthoredTravelRoute → Bool
leads a b r =
    r.from_location_id == a && r.to_location_id == b
    || r.bidirectional && (r.from_location_id == b && r.to_location_id == a)

abbrev pub minutes_of : Option AuthoredTravelRoute → Option ℕ
minutes_of none = none
minutes_of (some r) = some r.minutes

unfoldable pub travel_minutes : WorldDefinition → ℕ → ℕ → Result (Option ℕ)
travel_minutes world a b = do
  raise_if (not (is_known (location_of world a)) || not (is_known (location_of world b))) key_error
  ok (minutes_of (find_first (leads a b) world.travel_routes))
