-- ===== src/Recaps/Selection.antt =====
-- What a recap shows of its sources.
use mathlib.Core.List.Memᴰ.{head, tail}
use rumor_mill_ai.Prelude.{
  ℕ, zero, suc, ◌≤◌, ◌≡◌, refl, String, true, List, [], ◌∷◌, select, take, length, length-map,
  length-take, All, All-weaken, All-weaken_both, All-select, All-map, select_sound, arith, Option,
  none, some, filter_map, eq_iff, ◌⊎◌, inl, inr, not, str_eq,
}
use rumor_mill_ai.Prelude.Member.{Member}
use rumor_mill_ai.Prelude.Order.{sort_by, sort_by-All}
use rumor_mill_ai.Recaps.Build.{
  RecapSource, RecapPanel, RecapThread, DailyRecap, is_public, more_important, selected, panel,
  truthy, thread, thread_of, first_texts, first_threads, recap_of, build_daily_recap,
}

module _ (sources : List RecapSource) where
  -- One of the sources, and a public one.
  abbrev pub IsPublicSource : RecapSource → Type 0
  IsPublicSource s = Member s sources × (s.visibility ≡ "public")

  -- All that the panel shows is of one public source.
  abbrev pub IsShown : RecapPanel → Type 0
  IsShown p =
      (s : RecapSource) × IsPublicSource s
      × (p.source_id ≡ s.id)
      × (p.title ≡ s.title)
      × (p.body ≡ s.body)
      × (p.location_id ≡ s.location_id)
      × (p.character_id ≡ s.character_id)

  -- The thread is that of one public source.
  abbrev pub IsOpen : RecapThread → Type 0
  IsOpen t =
      (s : RecapSource) × IsPublicSource s
      × (s.active_thread ≡ some t.text)
      × (t.character_id ≡ s.character_id)
      × (t.location_id ≡ s.location_id)

  abbrev pub IsNamed : (RecapSource → Option String) → String → Type 0
  IsNamed named text = (s : RecapSource) × IsPublicSource s × (named s ≡ some text)

  abbrev pub IsHeadline : String → Type 0
  IsHeadline text =
      (text ≡ "Greyhaven holds its breath")
      ⊎ ((s : RecapSource) × IsPublicSource s × (text ≡ s.title))

  pub record IsSourced (recap : DailyRecap) : Type 0 where
    pub few : length recap.panels ≤ 4
    pub panels_shown : All IsShown recap.panels
    pub threads_open : All IsOpen recap.active_threads
    pub headline_shown : IsHeadline recap.headline
    pub locations_named : All (IsNamed (λ s. s.location_id)) recap.suggested_location_ids
    pub characters_named : All (IsNamed (λ s. s.character_id)) recap.suggested_character_ids

All-take : {A : Type 0} (P : A → Type 0) (n : ℕ) (xs : List A) → All P xs → All P (take n xs)
All-take P zero xs h = tt
All-take P (suc n) [] h = tt
All-take P (suc n) (x ∷ xs) h = (h.0, All-take P n xs h.1)

All-filter_map :
    {A B : Type 0} (P : A → Type 0) (Q : B → Type 0) (f : A → Option B)
    → ((x : A) (y : B) → P x → f x ≡ some y → Q y)
    → (xs : List A) → All P xs
    → All Q (filter_map f xs)
All-filter_map P Q f step [] h = tt
All-filter_map P Q f step (x ∷ xs) h = by_image (f x) refl (All-filter_map P Q f step xs h.1)
  where
    by_image :
        (o : Option _)
        → f x ≡ o
        → All Q (filter_map f xs)
        → All Q (elim o [ none ↦ filter_map f xs | some y ↦ y ∷ filter_map f xs ])
    by_image none e rest = rest
    by_image (some y) e rest = (step x y h.0 e, rest)

first_texts-All : (P : String → Type 0) (xs : List String) → All P xs → All P (first_texts xs)
unfolding first_texts
first_texts-All P [] h = tt
first_texts-All P (x ∷ xs) h =
    (h.0, All-select P (λ y. not (str_eq y x)) (first_texts xs) (first_texts-All P xs h.1))

first_threads-All :
    (P : RecapThread → Type 0) (ts : List RecapThread) → All P ts → All P (first_threads ts)
unfolding first_threads
first_threads-All P [] h = tt
first_threads-All P (t ∷ ts) h = (
  h.0,
  All-select P (λ x. not (str_eq x.text t.text)) (first_threads ts) (first_threads-All P ts h.1),
)

members : (ss : List RecapSource) → All (λ s. Member s ss) ss
members [] = tt
members (s ∷ ss) = (
  head refl,
  All-weaken (λ x. Member x ss) (λ x. Member x (s ∷ ss)) (λ x m. tail m) ss (members ss),
)

truthy-some : (o : Option String) (text : String) → truthy o ≡ some text → o ≡ some text
truthy-some none text h = cc h
truthy-some (some s) text h = ground arith

module _ (sources : List RecapSource) where
  selected-IsPublicSource : All (IsPublicSource sources) (selected sources)
  unfolding selected
  selected-IsPublicSource =
      All-take (IsPublicSource sources) 4 (sort_by more_important (select is_public sources)) (
        sort_by-All more_important (IsPublicSource sources) (select is_public sources) (
          All-weaken_both (λ s. Member s sources) (λ s. is_public s ≡ true) (IsPublicSource sources)
            (λ s m shown. (m, ground (arith, eq_iff s.visibility "public")))
            (select is_public sources) (All-select _ is_public sources (members sources))
            (select_sound is_public sources)))

  panel-IsShown : (s : RecapSource) → IsPublicSource sources s → IsShown sources (panel s)
  panel-IsShown s public_source = (s, public_source, refl, refl, refl, refl, refl)

  thread-IsOpen :
      (s : RecapSource) (t : RecapThread)
      → IsPublicSource sources s
      → thread s ≡ some t
      → IsOpen sources t
  thread-IsOpen s t public_source h = by_text (truthy s.active_thread) refl h
    where
      by_text :
          (o : Option String)
          → truthy s.active_thread ≡ o
          → elim o [ none ↦ none | some text ↦ some (thread_of s text) ] ≡ some t
          → IsOpen sources t
      by_text none e k = cc k
      by_text (some text) e k = (
        s,
        public_source,
        truthy-some s.active_thread t.text (ground arith),
        ground arith,
        ground arith,
      )

  recap_of-IsSourced :
      (print : ℕ → String) (story_date : ℕ) (ss : List RecapSource)
      → length ss ≤ 4
      → All (IsPublicSource sources) ss
      → IsSourced sources (recap_of print story_date ss)
  unfolding recap_of
  recap_of-IsSourced print story_date [] few h = record {
    few = omega arith;
    panels_shown = tt;
    threads_open = tt;
    headline_shown = inl refl;
    locations_named = tt;
    characters_named = tt;
  }
  recap_of-IsSourced print story_date (s ∷ ss) few h = record {
    few = omega (arith, length-map (s ∷ ss) panel, few);
    panels_shown = All-map (IsShown sources) panel (s ∷ ss) (
        All-weaken (IsPublicSource sources) (λ x. IsShown sources (panel x)) panel-IsShown (s ∷ ss)
          h);
    threads_open =
        first_threads-All (IsOpen sources) (filter_map thread (s ∷ ss)) (
          All-filter_map (IsPublicSource sources) (IsOpen sources) thread thread-IsOpen (s ∷ ss) h);
    headline_shown = inr (s, h.0, refl);
    locations_named = named (λ x. x.location_id);
    characters_named = named (λ x. x.character_id);
  }
    where
      named :
          (f : RecapSource → Option String)
          → All (IsNamed sources f) (first_texts (filter_map (λ x. truthy (f x)) (s ∷ ss)))
      named f = first_texts-All (IsNamed sources f) _ (
          All-filter_map (IsPublicSource sources) (IsNamed sources f) (λ x. truthy (f x))
            (λ x text public_source e. (x, public_source, truthy-some (f x) text e)) (s ∷ ss) h)

-- No spoilers: a recap has at most four panels, and each shows the identifier, title, body,
-- location and character of one public source. Each active thread is that of a public source, with
-- its character and location, each suggested location and character is named by one, and the
-- headline is the title of one or that of a quiet day.
pub build_daily_recap-IsSourced :
    (print : ℕ → String) (story_date : ℕ) (sources : List RecapSource)
    → IsSourced sources (build_daily_recap print story_date sources)
unfolding build_daily_recap selected
build_daily_recap-IsSourced print story_date sources =
    recap_of-IsSourced sources print story_date (selected sources)
      (omega (arith, length-take 4 (sort_by more_important (select is_public sources))))
      (selected-IsPublicSource sources)
