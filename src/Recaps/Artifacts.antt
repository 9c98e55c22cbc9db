-- ===== src/Recaps/Artifacts.antt =====
-- SqlAlchemyArtifactRepository (src/rumor_mill/adapters/persistence/repositories.py). A story date
-- is a number of days. The payload of a generated artifact carries its visibility and no recap, no
-- importance and no thread; the payload of a recap carries the recap, public and canonical.
use rumor_mill_ai.Prelude.{
  ℕ, ◌/◌, String, Bool, true, false, not, ◌&&◌, ◌||◌, Option, none, some, List, [], ◌∷◌, ◌++◌, map,
  select, any, ◌==◌, leb, ltb, if◌then◌else◌, Result, Exc, ok, raise_if, ◌>>◌,
}
use rumor_mill_ai.Prelude.Order.{sort_by}
use rumor_mill_ai.Domain.Base.{Visibility}
use rumor_mill_ai.Domain.Canon.{ArtifactKind}
use rumor_mill_ai.Recaps.Build.{RecapSource, DailyRecap}
use rumor_mill_ai.Scenes.Store.{ArtifactModel, ArtifactPayload}

abbrev pub day_length : ℕ
day_length = 86400000000

-- `generated_at.date()`
abbrev pub date_of : ℕ → ℕ
date_of instant = instant / day_length

-- `PUBLIC_RECAP_SOURCE_KINDS`, by its members' values.
abbrev pub is_source_kind : ArtifactKind → Bool
is_source_kind ArtifactKind.daily_recap = false
is_source_kind _ = true

abbrev pub is_recap_kind : ArtifactKind → Bool
is_recap_kind ArtifactKind.daily_recap = true
is_recap_kind _ = false

abbrev pub kind_text : ArtifactKind → String
kind_text ArtifactKind.scene_page = "scene_page"
kind_text ArtifactKind.story_card = "story_card"
kind_text ArtifactKind.character_update = "character_update"
kind_text ArtifactKind.rumor_card = "rumor_card"
kind_text ArtifactKind.daily_recap = "daily_recap"

-- `payload.get("visibility", "public") == "public"`
abbrev pub is_public : ArtifactPayload → Bool
is_public (ArtifactPayload.of_artifact a) = elim a.visibility [
  | Visibility.public ↦ true
  | _ ↦ false
]
is_public (ArtifactPayload.of_recap r) = true

-- `payload.get("location_id")`
abbrev pub location_of : ArtifactPayload → Option String
location_of (ArtifactPayload.of_artifact a) = a.location_id
location_of (ArtifactPayload.of_recap r) = none

abbrev pub source_row : ℕ → ArtifactModel → Bool
source_row run_id row = row.run_id == run_id && (is_source_kind row.kind && is_public row.payload)

-- `sorted` of a set of dates.
unfoldable pub distinct_dates : List ℕ → List ℕ
distinct_dates [] = []
distinct_dates (d ∷ ds) = d ∷ select (λ e. not (e == d)) (distinct_dates ds)

unfoldable pub public_source_dates : ℕ → List ArtifactModel → List ℕ
unfolding sort_by distinct_dates
public_source_dates run_id t =
    sort_by leb
      (distinct_dates (map (λ row. date_of row.generated_at) (select (source_row run_id) t)))

-- `ORDER BY generated_at DESC, id`
abbrev pub newer : ArtifactModel → ArtifactModel → Bool
newer a b = ltb b.generated_at a.generated_at || a.generated_at == b.generated_at && leb a.id b.id

-- `payload.get("importance", 1)`, `payload.get("character_id")` and `payload.get("active_thread")`
-- are the defaults: no payload that the repositories write has these keys.
abbrev pub recap_source : ArtifactModel → RecapSource
recap_source row = record {
  id = row.id;
  kind = kind_text row.kind;
  title = row.title;
  body = row.body;
  generated_at = row.generated_at;
  visibility = "public";
  importance = 1;
  location_id = location_of row.payload;
  character_id = none;
  active_thread = none;
}

unfoldable pub recap_sources : (run_id story_date : ℕ) → List ArtifactModel → List RecapSource
unfolding sort_by
recap_sources run_id story_date t = map recap_source (
    sort_by newer
      (select (λ row. source_row run_id row && date_of row.generated_at == story_date) t))

abbrev pub payload_date : ArtifactPayload → Option ℕ
payload_date (ArtifactPayload.of_artifact a) = none
payload_date (ArtifactPayload.of_recap r) = some r.story_date

-- `_story_date`
abbrev pub story_date_of : ArtifactModel → Option ℕ
story_date_of row = elim row.story_date [ some d ↦ some d | none ↦ payload_date row.payload ]

abbrev pub is_on : ℕ → Option ℕ → Bool
is_on date none = false
is_on date (some d) = d == date

abbrev pub has_recap : ArtifactPayload → Bool
has_recap (ArtifactPayload.of_artifact a) = false
has_recap (ArtifactPayload.of_recap r) = true

abbrev pub is_recap_on : (run_id story_date : ℕ) → ArtifactModel → Bool
is_recap_on run_id story_date row =
    row.run_id == run_id
    && (is_recap_kind row.kind && (is_on story_date (story_date_of row) && has_recap row.payload))

-- `published_recap_dates`
abbrev pub dates_of : List (Option ℕ) → List ℕ
dates_of [] = []
dates_of (none ∷ os) = dates_of os
dates_of (some d ∷ os) = d ∷ dates_of os

unfoldable pub published_recap_dates : ℕ → List ArtifactModel → List ℕ
unfolding distinct_dates
published_recap_dates run_id t = distinct_dates (
    dates_of (
      map story_date_of (
        select (λ row. row.run_id == run_id && (is_recap_kind row.kind && has_recap row.payload))
          t)))

-- The identifier that `get_daily_recap` returns: of the row that was created last.
unfoldable pub get_daily_recap : (run_id story_date : ℕ) → List ArtifactModel → Option ℕ
get_daily_recap run_id story_date [] = none
get_daily_recap run_id story_date (row ∷ rows) = elim (get_daily_recap run_id story_date rows) [
  | some i ↦ some i
  | none ↦ if is_recap_on run_id story_date row then some row.id else none
]

abbrev pub recap_row : (run_id artifact_id story_date published_at : ℕ) → DailyRecap → ArtifactModel
recap_row run_id artifact_id story_date published_at recap = record {
  id = artifact_id;
  run_id = run_id;
  scene_id = none;
  kind = ArtifactKind.daily_recap;
  title = recap.headline;
  body = recap.dek;
  generated_at = published_at;
  story_date = some story_date;
  source_ids = map (λ panel. panel.source_id) recap.panels;
  payload = ArtifactPayload.of_recap recap;
}

-- The unique key of run, kind and story date, and the primary key.
abbrev pub clashes : ArtifactModel → ArtifactModel → Bool
clashes new row =
    new.id == row.id
    || new.run_id == row.run_id
      && (is_recap_kind row.kind
          && elim row.story_date [ none ↦ false | some d ↦ is_on d new.story_date ])

unfoldable pub add_daily_recap :
    (run_id artifact_id story_date published_at : ℕ)
    → DailyRecap
    → List ArtifactModel
    → Result (List ArtifactModel)
add_daily_recap run_id artifact_id story_date published_at recap t =
    let row = recap_row run_id artifact_id story_date published_at recap in
    raise_if (any (clashes row) t) (Exc.other "IntegrityError") >> ok (t ++ row ∷ [])
