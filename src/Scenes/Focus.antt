-- ===== src/Scenes/Focus.antt =====
-- What a planner selects (Scenes/Plan).
use rumor_mill_ai.Prelude.{
  ℕ, zero, suc, ◌<◌, ◌≤◌, ◌≡◌, refl, Bool, true, false, not, Option, none, some, List, [], ◌∷◌,
  ◌++◌, select, take, length, length-take, contains, subset, ok, arith, All, All-append, All-select,
  All-weaken, select_sound,
}
use rumor_mill_ai.Prelude.Order.{sort_by, sort_by-All}
use rumor_mill_ai.Floats.{Floats}
use rumor_mill_ai.Domain.Subjective.{is_empty}
use rumor_mill_ai.Scenes.Plan.{
  PlotIntent, ScenePlan, ScenePlanner, ContextItem, make_intent, make_plan, plan, draft, place,
  participants, distinct, offered, is_relevant, more_salient,
}

-- Every element is one of a list.
abbrev pub AllIn : List ℕ → List ℕ → Type 0
AllIn ys xs = All (λ x. contains x ys ≡ true) xs

pub subset-AllIn : (xs ys : List ℕ) → subset xs ys ≡ true → AllIn ys xs
subset-AllIn [] ys h = tt
subset-AllIn (x ∷ xs) ys h = (ground arith, subset-AllIn xs ys (ground arith))

AllIn-self : (xs : List ℕ) → AllIn xs xs
AllIn-self [] = tt
AllIn-self (x ∷ xs) = (
  ground arith,
  All-weaken (λ y. contains y xs ≡ true) (λ y. contains y (x ∷ xs) ≡ true) (λ y h. ground arith) xs
      (AllIn-self xs),
)

pub All-take {ℓ κ} :
    {A : Type ℓ} (P : A → Type κ) (n : ℕ) (xs : List A) → All P xs → All P (take n xs)
All-take P zero xs h = tt
All-take P (suc n) [] h = tt
All-take P (suc n) (x ∷ xs) h = (h.0, All-take P n xs h.1)

distinct-All {κ} : (P : ℕ → Type κ) (xs : List ℕ) → All P xs → All P (distinct xs)
unfolding distinct
distinct-All P [] h = tt
distinct-All P (x ∷ xs) h = (h.0, All-select P _ (distinct xs) (distinct-All P xs h.1))

module _ (F : Floats) where
  open F use {Carrier}

  -- A scene is planned from what the intent offers, and within the planner's limits.
  pub record IsFocused (planner : ScenePlanner) (i : PlotIntent Carrier) (p : ScenePlan Carrier)
      : Type 0 where
    pub offered_cast : AllIn i.candidate_participant_ids p.participant_ids
    pub few : length p.participant_ids ≤ planner.max_participants
    pub not_empty : is_empty p.participant_ids ≡ false
    pub offered_place : contains p.location_id i.available_location_ids ≡ true
    pub relevant :
        All (λ item. is_relevant F p.participant_ids p.location_id item ≡ true) p.relevant_context
    pub short : length p.relevant_context ≤ planner.context_limit

  participants-AllIn :
      (i : PlotIntent Carrier)
      → subset i.preferred_participant_ids i.candidate_participant_ids ≡ true
      → AllIn i.candidate_participant_ids (participants F i)
  participants-AllIn i h =
      let among : ℕ → Type 0 = λ x. contains x i.candidate_participant_ids ≡ true in
      All-append among (distinct i.preferred_participant_ids) _
        (distinct-All among i.preferred_participant_ids (subset-AllIn _ _ h))
        (All-select among _ i.candidate_participant_ids (AllIn-self i.candidate_participant_ids))

  select_all : (xs : List ℕ) → select (λ c. not (contains c [])) xs ≡ xs
  select_all [] = refl
  select_all (x ∷ xs) = ground (arith, select_all xs)

  some_chosen :
      (m : ℕ) (preferred candidates : List ℕ)
      → 0 < m
      → is_empty candidates ≡ false
      → is_empty (
          take m
            (distinct preferred ++ select (λ c. not (contains c (distinct preferred))) candidates))
        ≡ false
  unfolding distinct
  some_chosen zero preferred candidates some_place h = absurd (omega arith)
  some_chosen (suc m) [] [] some_place h = cc
  some_chosen (suc m) [] (c ∷ cs) some_place h = refl
  some_chosen (suc m) (p ∷ ps) candidates some_place h = refl

  -- The checks of an intent that later code relies on.
  intent-checked :
      (i : PlotIntent Carrier) {i' : PlotIntent Carrier}
      → make_intent F i ≡ ok i'
      → (is_empty i.candidate_participant_ids ≡ false)
        × (is_empty i.available_location_ids ≡ false)
        × (is_empty i.goals ≡ false)
        × (subset i.preferred_participant_ids i.candidate_participant_ids ≡ true)
        × (offered i.available_location_ids i.preferred_location_id ≡ true)
  unfolding make_intent
  intent-checked i h = ground arith

  place-offered :
      (preferred : Option ℕ) (locations : List ℕ)
      → is_empty locations ≡ false
      → offered locations preferred ≡ true
      → (i : ℕ) × (place preferred locations ≡ ok i) × (contains i locations ≡ true)
  place-offered (some i) locations h k = (i, refl, k)
  place-offered none [] h k = cc
  place-offered none (i ∷ locations) h k = (i, refl, ground arith)

  make_plan-ok :
      (p : ScenePlan Carrier)
      → is_empty p.participant_ids ≡ false
      → is_empty p.goals ≡ false
      → make_plan F p ≡ ok p
  unfolding make_plan
  make_plan-ok p h k = ground arith

  draft-IsFocused :
      (planner : ScenePlanner) (i : PlotIntent Carrier) (location_id : ℕ)
      → subset i.preferred_participant_ids i.candidate_participant_ids ≡ true
      → is_empty (draft F planner i location_id).participant_ids ≡ false
      → contains location_id i.available_location_ids ≡ true
      → IsFocused planner i (draft F planner i location_id)
  draft-IsFocused planner i location_id preferred chosen available =
      let selected = take planner.max_participants (participants F i) in
      let passes : ContextItem Carrier → Bool = is_relevant F selected location_id in
      let relevant = sort_by (more_salient F) (select passes i.context) in
      record {
        offered_cast =
            All-take (λ x. contains x i.candidate_participant_ids ≡ true) planner.max_participants
              (participants F i) (participants-AllIn i preferred);
        few = omega (arith, length-take planner.max_participants (participants F i));
        not_empty = chosen;
        offered_place = available;
        relevant =
            All-take (λ item. passes item ≡ true) planner.context_limit relevant
              (sort_by-All (more_salient F) (λ item. passes item ≡ true) (select passes i.context)
                (select_sound passes i.context));
        short = omega (arith, length-take planner.context_limit relevant);
      }

  -- Planning never fails for an intent that was accepted and a planner with a place for at least
  -- one participant, and what it returns is focused: each participant is a candidate, at least
  -- one and at most as many as the planner's limit; the location is available; and each context
  -- item, at most as many as the planner's limit, concerns nobody in particular, one of the
  -- participants, or the location.
  pub plan-IsFocused :
      (planner : ScenePlanner) (i i' : PlotIntent Carrier)
      → 0 < planner.max_participants
      → make_intent F i ≡ ok i'
      → (p : ScenePlan Carrier) × (plan F planner i ≡ ok p) × IsFocused planner i p
  unfolding plan
  plan-IsFocused planner i i' some_place accepted =
      let (cast, places, goals, preferred, offers) = intent-checked i accepted in
      let (location_id, placed, available) =
        place-offered i.preferred_location_id i.available_location_ids places offers in
      let chosen =
        some_chosen planner.max_participants i.preferred_participant_ids i.candidate_participant_ids
          some_place cast in
      (
        draft F planner i location_id,
        rw (placed, make_plan-ok (draft F planner i location_id) chosen goals) refl,
        draft-IsFocused planner i location_id preferred chosen available,
      )
