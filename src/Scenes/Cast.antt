-- ===== src/Scenes/Cast.antt =====
-- The characters and sources that a scene may refer to (Scenes/Build).
use rumor_mill_ai.Prelude.{
  concat_map, ℕ, ◌≡◌, true, some, List, [], ◌∷◌, ◌++◌, map, filter_map, contains, ok, arith, All,
}
use rumor_mill_ai.Scenes.Plan.{ScenePlan}
use rumor_mill_ai.Scenes.Output.{StructuredSceneOutput}
use rumor_mill_ai.Scenes.Focus.{AllIn, subset-AllIn}
use rumor_mill_ai.Scenes.Build.{GeneratedSceneRecord, referenced, validate_against_plan}
use rumor_mill_ai.Scenes.Indexes.{FromIds}

module _ {C : Type 0} where
  -- A record of a scene refers only to the participants of its plan, to its own scene, and to its
  -- own events and claims.
  pub record IsScoped (p : ScenePlan C) (r : GeneratedSceneRecord C) : Type 0 where
    pub event_cast : All (λ e. AllIn p.participant_ids e.participant_ids) r.events
    pub claim_cast : All (λ c. AllIn p.participant_ids c.subject_ids) r.claims
    pub memory_cast : All (λ m. contains m.character_id p.participant_ids ≡ true) r.memories
    pub memory_events : All (λ m. FromIds m.source_event_id (map (λ e. e.id) r.events)) r.memories
    pub memory_claims : All (λ m. FromIds m.source_claim_id (map (λ c. c.id) r.claims)) r.memories
    pub artifact_scene : All (λ a. a.source_scene_ids ≡ r.scene.id ∷ []) r.artifacts
    pub artifact_events : All (λ a. AllIn (map (λ e. e.id) r.events) a.source_event_ids) r.artifacts
    pub artifact_claims : All (λ a. AllIn (map (λ c. c.id) r.claims) a.source_claim_ids) r.artifacts
    pub scene_events : r.scene.event_ids ≡ map (λ e. e.id) r.events
    pub claim_source : All (λ c. c.provenance.source_id ≡ some r.scene.id) r.claims
    pub memory_source : All (λ m. m.provenance.source_id ≡ some r.scene.id) r.memories

AllIn-of_append : (ys xs zs : List ℕ) → AllIn ys (xs ++ zs) → AllIn ys xs × AllIn ys zs
AllIn-of_append ys [] zs h = (tt, h)
AllIn-of_append ys (x ∷ xs) zs h =
    let rest = AllIn-of_append ys xs zs h.1 in ((h.0, rest.0), rest.1)

AllIn-concat_map :
    {A : Type 0} (f : A → List ℕ) (ys : List ℕ) (xs : List A)
    → AllIn ys (concat_map f xs)
    → All (λ x. AllIn ys (f x)) xs
AllIn-concat_map f ys [] h = tt
AllIn-concat_map f ys (x ∷ xs) h =
    let split = AllIn-of_append ys (f x) (concat_map f xs) h in
    (split.0, AllIn-concat_map f ys xs split.1)

AllIn-map :
    {A : Type 0} (f : A → ℕ) (ys : List ℕ) (xs : List A)
    → AllIn ys (map f xs)
    → All (λ x. contains (f x) ys ≡ true) xs
AllIn-map f ys [] h = tt
AllIn-map f ys (x ∷ xs) h = (h.0, AllIn-map f ys xs h.1)

-- What an output may mention of a plan's participants, by parts.
pub record IsCastIn {C : Type 0} (ids : List ℕ) (o : StructuredSceneOutput C) : Type 0 where
  pub memories : All (λ m. contains m.character_id ids ≡ true) o.memories
  pub events : All (λ e. AllIn ids e.participant_ids) o.events
  pub claims : All (λ c. AllIn ids c.subject_ids) o.claims

pub validated-IsCastIn :
    {C : Type 0} (p : ScenePlan C) (o : StructuredSceneOutput C)
    → validate_against_plan p o ≡ ok tt
    → IsCastIn p.participant_ids o
unfolding validate_against_plan
validated-IsCastIn p o h =
    let ids = p.participant_ids in
    let mentioned : AllIn ids (referenced o) = subset-AllIn (referenced o) ids (ground arith) in
    let lines = AllIn-of_append ids (map (λ line. line.speaker_id) o.dialogue) _ mentioned in
    let actions =
      AllIn-of_append ids (filter_map (λ action. action.actor_id) o.actions) _ lines.1 in
    let memories = AllIn-of_append ids (map (λ m. m.character_id) o.memories) _ actions.1 in
    let events = AllIn-of_append ids (concat_map (λ e. e.participant_ids) o.events) _ memories.1 in
    let claims = AllIn-of_append ids (concat_map (λ c. c.subject_ids) o.claims) _ events.1 in
    record {
      memories = AllIn-map (λ m. m.character_id) ids o.memories memories.0;
      events = AllIn-concat_map (λ e. e.participant_ids) ids o.events events.0;
      claims = AllIn-concat_map (λ c. c.subject_ids) ids o.claims claims.0;
    }
