-- ===== src/Lighthouse/Source.antt =====
-- LighthouseWorkSource (src/rumor_mill/engine/lighthouse_pipeline.py): the work that the beats and
-- routines of the lighthouse world make due, and when no more can become due.
use Prim.Native.Char.{code}
use Prim.Native.String.{String, ◌∷◌ as cons_char, ◌++◌ as str_append, compare}
use Prim.Native.Nat.{Ordering}
use text.Mathlib.Text.{starts_with}
use rumor_mill_ai.Prelude.{
  ℕ, ◌+◌, ◌*◌, ◌-◌, Bool, true, false, ◌&&◌, ◌||◌, Option, none, some, List, [], ◌∷◌, ◌++◌, map,
  select, any, all, Result, ok, ◌>>=◌, raise, type_error, not, str_eq, ◌==◌, leb, ltb,
  if◌then◌else◌, max,
}
use rumor_mill_ai.Prelude.Order.{sort_by}
use rumor_mill_ai.Json.{Json, Fields, get}
use rumor_mill_ai.Jobs.Repo.{Table, completed_keys}
use rumor_mill_ai.Scheduling.Runs.{RunRecord}
use rumor_mill_ai.Scheduling.Advance.{ScheduledWork, Db, WorkSource}
use rumor_mill_ai.Worlds.Records.{WorldRecord}
use rumor_mill_ai.Worlds.Records as Records
use rumor_mill_ai.Lighthouse.Reading.{
  Formats, require, elements, get_list, collect, as_text, as_int, routine_offset, beats_of, number,
  routines_of,
}

abbrev pub lighthouse_story_job : String
lighthouse_story_job = "lighthouse_story"

abbrev pub day_length : ℕ
day_length = 86400000000

-- The text after the last colon, if there is a colon.
unfoldable pub after_colon : String → Option String
after_colon String.[] = none
after_colon (cons_char c s) = elim (after_colon s) [
  | some t ↦ some t
  | none ↦ if code c == 58 then some s else none
]

-- `key.rsplit(":", 1)[-1]`
abbrev pub last_part : String → String
last_part key = elim (after_colon key) [ none ↦ key | some t ↦ t ]

abbrev pub has_text : String → List String → Bool
has_text s texts = any (str_eq s) texts

-- `scheduled_at, key`, in ascending order.
abbrev pub text_le : String → String → Bool
text_le s t = elim (compare s t) [ Ordering.gt ↦ false | _ ↦ true ]

abbrev pub earlier : ScheduledWork → ScheduledWork → Bool
earlier v w =
    ltb v.scheduled_at w.scheduled_at || v.scheduled_at == w.scheduled_at && text_le v.key w.key

-- `fields[key] = value`: a key keeps its place.
unfoldable pub set_field : String → Json → Fields → Fields
set_field key value Fields.end = Fields.field key value Fields.end
set_field key value (Fields.field k v fields) =
    let rest = set_field key value fields in
    if str_eq k key then Fields.field k value fields else Fields.field k v rest

-- `{**old, **new}`: the new values win.
unfoldable pub merge : (old new : Fields) → Fields
unfolding set_field
merge old Fields.end = old
merge old (Fields.field k v new) = merge (set_field k v old) new

-- `{..., **value}`; to unpack what is no mapping raises, and is left as it is here.
abbrev pub with_fields : Fields → Json → Json
with_fields first (Json.obj fields) = Json.obj (merge first fields)
with_fields first value = value

-- `{"story_kind": "beat", **beat}`
abbrev pub beat_payload : Json → Json
beat_payload beat = with_fields (Fields.field "story_kind" (Json.str "beat") Fields.end) beat

-- `{"story_kind": "routine", "day": day, **routine}`
abbrev pub routine_payload : Json → Json → Json
routine_payload day routine =
    with_fields (Fields.field "story_kind" (Json.str "routine") (Fields.field "day" day Fields.end))
      routine

-- `run.started_at + timedelta(days=day - 1) + offset`: what comes out as no instant after the
-- epoch is 0.
abbrev pub on_day : (started_at day offset : ℕ) → ℕ
on_day started_at day offset = (started_at + day * day_length + offset) - day_length

abbrev pub beat_prefix : (ℕ → String) → ℕ → String
beat_prefix print_id run_id = str_append "run:" (str_append (print_id run_id) ":beat:")

abbrev pub within : (after through t : ℕ) → Bool
within after through t = ltb after t && leb t through

-- `new > best`: two numbers, of which a Boolean is one, or two texts. Of other values either this
-- raises, or `int` does that meets the greatest of them.
abbrev pub greater : (new best : Json) → Result Bool
greater (Json.num m) (Json.num n) = ok (ltb n m)
greater (Json.num m) (Json.bool b) = ok (ltb (number (Json.bool b)) m)
greater (Json.bool a) (Json.num n) = ok (ltb n (number (Json.bool a)))
greater (Json.bool a) (Json.bool b) = ok (ltb (number (Json.bool b)) (number (Json.bool a)))
greater (Json.str s) (Json.str t) = ok (not (text_le s t))
greater _ _ = raise type_error

-- `max(best, *days)`, as the values compare before `int` reads them.
unfoldable pub last_of : (best : Json) (days : List Json) → Result Json
last_of best [] = ok best
last_of best (day ∷ days) = greater day best >>= λ later. last_of (if later then day else best) days

module _ (fmt : Formats) where
  unfoldable pub completed_beats : ℕ → List String → List String
  unfolding after_colon
  completed_beats run_id keys =
      map last_part (select (λ key. starts_with key (beat_prefix fmt.print_id run_id)) keys)

  abbrev pub beat_unit : String → Json → ℕ → ScheduledWork
  beat_unit beat_id beat scheduled_at = record {
    key = str_append "beat:" beat_id;
    kind = lighthouse_story_job;
    scheduled_at = scheduled_at;
    payload = beat_payload beat;
  }

  -- `max(earliest, through if earliest <= after else earliest)`
  abbrev pub beat_time : (earliest after through : ℕ) → ℕ
  beat_time earliest after through = max earliest (if leb earliest after then through else earliest)

  -- What a beat whose prerequisites are completed makes due.
  abbrev pub beat_due :
      (started_at after through : ℕ)
      → String
      → Json
      → (earliest_day latest_day : ℕ) → List ScheduledWork
  beat_due started_at after through beat_id beat earliest_day latest_day =
      let earliest = on_day started_at earliest_day 300000000 in
      let latest = started_at + latest_day * day_length in
      let scheduled_at = beat_time earliest after through in
      if within after through scheduled_at && leb scheduled_at latest
      then beat_unit beat_id beat scheduled_at ∷ []
      else []

  abbrev pub beat_days :
      (started_at after through : ℕ) → String → Json → Result (List ScheduledWork)
  beat_days started_at after through beat_id beat = do
    earliest_day ← require "earliest_day" beat >>= as_int fmt
    latest_day ← require "latest_day" beat >>= as_int fmt
    ok (beat_due started_at after through beat_id beat earliest_day latest_day)

  abbrev pub beat_open :
      (started_at after through : ℕ) (completed : List String)
      → String
      → Json
      → Result (List ScheduledWork)
  beat_open started_at after through completed beat_id beat = do
    prerequisites ← get_list "depends_on" beat
    if all (λ item. has_text (as_text fmt item) completed) prerequisites
        then beat_days started_at after through beat_id beat
        else ok []

  -- The body of the loop over beats.
  unfoldable pub beat_work :
      (started_at after through : ℕ) (completed : List String) → Json → Result (List ScheduledWork)
  beat_work started_at after through completed beat = do
    id ← require "id" beat
    if has_text (as_text fmt id) completed
        then ok []
        else beat_open started_at after through completed (as_text fmt id) beat

  abbrev pub routine_key : Json → Json → String
  routine_key id day =
      str_append "routine:" (str_append (as_text fmt id) (str_append ":day:" (as_text fmt day)))

  abbrev pub routine_unit : Json → Json → Json → ℕ → ScheduledWork
  routine_unit routine id day scheduled_at = record {
    key = routine_key id day;
    kind = lighthouse_story_job;
    scheduled_at = scheduled_at;
    payload = routine_payload day routine;
  }

  -- The body of the loop over the days of a routine.
  unfoldable pub routine_day :
      (started_at after through offset : ℕ) (routine : Json) → Json → Result (List ScheduledWork)
  routine_day started_at after through offset routine day = do
    n ← as_int fmt day
    if within after through (on_day started_at n offset)
        then (require "id" routine >>= λ id.
            ok (routine_unit routine id day (on_day started_at n offset) ∷ []))
        else ok []

  -- The body of the loop over routines.
  unfoldable pub routine_work : (started_at after through : ℕ) → Json → Result (List ScheduledWork)
  unfolding routine_day routine_offset
  routine_work started_at after through routine = do
    offset ← routine_offset fmt (get "start_time" routine)
    days ← require "days" routine >>= elements
    collect (routine_day started_at after through offset routine) days

  -- The work of a definition, in the order of the loops.
  unfoldable pub work_of :
      (started_at after through : ℕ) (completed : List String) → Json → Result (List ScheduledWork)
  unfolding beat_work routine_work beats_of routines_of sort_by
  work_of started_at after through completed definition = do
    beats ← beats_of definition
    work ← collect (beat_work started_at after through completed) beats
    routines ← routines_of definition
    more ← collect (routine_work started_at after through) routines
    ok (sort_by earlier (work ++ more))

  abbrev pub is_lighthouse : WorldRecord → Bool
  is_lighthouse w = str_eq w.slug "lighthouse"

  -- The deadline of a beat.
  unfoldable pub beat_deadline : ℕ → Json → Result (List ℕ)
  beat_deadline started_at beat = do
    latest_day ← require "latest_day" beat >>= as_int fmt
    ok ((started_at + latest_day * day_length) ∷ [])

  abbrev pub maximum : List ℕ → ℕ
  maximum [] = 0
  maximum (n ∷ ns) = max n (maximum ns)

  -- The last deadline of a routine: none if it has no days.
  abbrev pub last_deadline : ℕ → Json → List Json → Result (List ℕ)
  last_deadline started_at routine [] = ok []
  last_deadline started_at routine (day ∷ days) = do
    offset ← routine_offset fmt (get "start_time" routine)
    n ← last_of day days >>= as_int fmt
    ok (on_day started_at n offset ∷ [])

  unfoldable pub routine_deadline : ℕ → Json → Result (List ℕ)
  unfolding routine_offset last_of
  routine_deadline started_at routine = do
    days ← get_list "days" routine
    last_deadline started_at routine days

  unfoldable pub deadlines_of : ℕ → Json → Result (List ℕ)
  unfolding beat_deadline routine_deadline beats_of routines_of
  deadlines_of started_at definition = do
    beats ← beats_of definition
    deadlines ← collect (beat_deadline started_at) beats
    routines ← routines_of definition
    more ← collect (routine_deadline started_at) routines
    ok (deadlines ++ more)

  -- `bool(deadlines) and at >= max(deadlines)`
  abbrev pub all_past : ℕ → List ℕ → Bool
  all_past at [] = false
  all_past at (d ∷ ds) = leb (maximum (d ∷ ds)) at

  abbrev pub found_world : Option WorldRecord → Option Json
  found_world none = none
  found_world (some w) = if is_lighthouse w then some w.definition else none

  -- What `due_work` returns for the definition of a lighthouse world, and without one.
  unfoldable pub due_of :
      (run_id started_at after through : ℕ) → Table → Option Json → Result (List ScheduledWork)
  unfolding work_of completed_beats completed_keys
  due_of run_id started_at after through jobs none = ok []
  due_of run_id started_at after through jobs (some definition) =
      let keys = completed_keys run_id (some lighthouse_story_job) jobs in
      work_of started_at after through (completed_beats run_id keys) definition

  unfoldable pub exhausted_of : (started_at at : ℕ) → Option Json → Result Bool
  unfolding deadlines_of
  exhausted_of started_at at none = ok false
  exhausted_of started_at at (some definition) =
      deadlines_of started_at definition >>= λ deadlines. ok (all_past at deadlines)

  module _ {Rate : Type 0} (worlds : List WorldRecord) where
    abbrev pub definition_of : RunRecord Rate → Option Json
    definition_of run = found_world (Records.get run.world_id worlds)

    unfoldable pub due_work :
        Db Rate → RunRecord Rate → (after through : ℕ) → Result (List ScheduledWork)
    unfolding due_of Records.get
    due_work db run after through =
        due_of run.id run.started_at after through db.jobs (definition_of run)

    unfoldable pub exhausted : Db Rate → RunRecord Rate → (at : ℕ) → Result Bool
    unfolding exhausted_of Records.get
    exhausted db run at = exhausted_of run.started_at at (definition_of run)

    -- `LighthouseWorkSource`
    abbrev pub lighthouse : WorkSource Rate
    lighthouse = record { due_work = due_work; exhausted = exhausted }
