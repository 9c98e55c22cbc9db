-- ===== src/Recaps/Build.antt =====
-- build_daily_recap (src/rumor_mill/engine/recap.py). How a number is printed is a parameter.
use Prim.Native.String.{◌++◌ as str_append}
use rumor_mill_ai.Prelude.{
  ℕ, String, Bool, not, ◌&&◌, ◌||◌, Option, none, some, List, [], ◌∷◌, map, select, take, length,
  filter_map, str_eq, ◌==◌, leb, ltb, if◌then◌else◌,
}
use rumor_mill_ai.Prelude.Order.{sort_by}

pub record RecapSource : Type 0 where
  pub id : ℕ
  pub kind : String
  pub title : String
  pub body : String
  pub generated_at : ℕ
  pub visibility : String
  pub importance : ℕ
  pub location_id : Option String
  pub character_id : Option String
  pub active_thread : Option String

pub record RecapPanel : Type 0 where
  pub source_id : ℕ
  pub title : String
  pub body : String
  pub location_id : Option String
  pub character_id : Option String

pub record RecapThread : Type 0 where
  pub text : String
  pub character_id : Option String
  pub location_id : Option String

pub record DailyRecap : Type 0 where
  pub story_date : ℕ
  pub headline : String
  pub dek : String
  pub panels : List RecapPanel
  pub active_threads : List RecapThread
  pub suggested_location_ids : List String
  pub suggested_character_ids : List String
  pub state : String

abbrev pub is_public : RecapSource → Bool
is_public s = str_eq s.visibility "public"

-- `(importance, generated_at)`, in descending order.
abbrev pub more_important : RecapSource → RecapSource → Bool
more_important a b =
    ltb b.importance a.importance
    || a.importance == b.importance && leb b.generated_at a.generated_at

unfoldable pub selected : List RecapSource → List RecapSource
unfolding sort_by
selected sources = take 4 (sort_by more_important (select is_public sources))

abbrev pub panel : RecapSource → RecapPanel
panel s = record {
  source_id = s.id;
  title = s.title;
  body = s.body;
  location_id = s.location_id;
  character_id = s.character_id;
}

-- A text that is there and not empty.
abbrev pub truthy : Option String → Option String
truthy none = none
truthy (some s) = if str_eq s "" then none else some s

-- `dict.fromkeys`: the first occurrences, in order.
unfoldable pub first_texts : List String → List String
first_texts [] = []
first_texts (s ∷ ss) = s ∷ select (λ x. not (str_eq x s)) (first_texts ss)

abbrev pub thread_of : RecapSource → String → RecapThread
thread_of s text = record {
  text = text;
  character_id = s.character_id;
  location_id = s.location_id;
}

abbrev pub thread : RecapSource → Option RecapThread
thread s = elim (truthy s.active_thread) [ none ↦ none | some text ↦ some (thread_of s text) ]

-- `threads_by_text.values()`: the first thread of each text.
unfoldable pub first_threads : List RecapThread → List RecapThread
first_threads [] = []
first_threads (t ∷ ts) = t ∷ select (λ x. not (str_eq x.text t.text)) (first_threads ts)

abbrev pub quiet_day : ℕ → DailyRecap
quiet_day story_date = record {
  story_date = story_date;
  headline = "Greyhaven holds its breath";
  dek = "No public dispatches were filed today. The town is still moving beyond view.";
  panels = [];
  active_threads = [];
  suggested_location_ids = [];
  suggested_character_ids = [];
  state = "quiet_day";
}

abbrev pub recap_state : List RecapThread → String
recap_state [] = "first_day"
recap_state (t ∷ ts) = "active"

-- The recap of the selected sources.
unfoldable pub recap_of : (ℕ → String) → ℕ → List RecapSource → DailyRecap
unfolding first_texts first_threads
recap_of print story_date [] = quiet_day story_date
recap_of print story_date (s ∷ ss) =
    let threads = first_threads (filter_map thread (s ∷ ss)) in
    let panels = map panel (s ∷ ss) in
    record {
      story_date = story_date;
      headline = s.title;
      dek = str_append (print (length panels)) (
          str_append " public " (
            str_append (if length panels == 1 then "dispatch" else "dispatches")
              " from Greyhaven today."));
      panels = panels;
      active_threads = threads;
      suggested_location_ids = first_texts (filter_map (λ x. truthy x.location_id) (s ∷ ss));
      suggested_character_ids = first_texts (filter_map (λ x. truthy x.character_id) (s ∷ ss));
      state = recap_state threads;
    }

unfoldable pub build_daily_recap : (ℕ → String) → ℕ → List RecapSource → DailyRecap
unfolding selected recap_of
build_daily_recap print story_date sources = recap_of print story_date (selected sources)
