-- ===== src/Scenes/Scoped.antt =====
-- What a generated scene refers to (Scenes/Build, Scenes/Generate).
use rumor_mill_ai.Prelude.{
  ℕ, ◌+◌, ◌≡◌, sym, subst, ap, ◌∙◌, true, Option, none, some, List, [], ◌∷◌, map, length, contains,
  Result, ok, >>=-eq-ok, arith,
}
use rumor_mill_ai.Floats.{Floats}
use rumor_mill_ai.Json.{Json}
use rumor_mill_ai.Domain.Base.{Provenance, make_provenance, make_lifecycle, started}
use rumor_mill_ai.Domain.Canon.{
  Event, Scene, PresentationArtifact, make_event, make_scene, make_artifact,
}
use rumor_mill_ai.Domain.World.{Claim, make_claim}
use rumor_mill_ai.Memories.Records.{Memory, make_memory}
use rumor_mill_ai.Scenes.Plan.{ScenePlan}
use rumor_mill_ai.Scenes.Output.{
  StructuredSceneOutput, CanonicalEventOutput, ClaimOutput, MemoryOutput, PresentationHook,
}
use rumor_mill_ai.Scenes.Focus.{AllIn}
use rumor_mill_ai.Scenes.Build.{
  GeneratedSceneRecord, Generation, Shared, each, each_from, source, validate_against_plan,
  build_event, build_claim, build_memory, build_artifact, build_parts, build_record, id_at,
  scene_of, scene_provenance,
}
use rumor_mill_ai.Scenes.Generate.{
  Dumps, GenerationRequest, GenerationResult, prepare, received, request, generation_json,
}
use rumor_mill_ai.Scenes.Indexes.{
  each_from-All, each_from-built, each-All, id_at-contains, source-FromIds, FromIds,
}
use rumor_mill_ai.Scenes.Cast.{IsScoped, IsCastIn, validated-IsCastIn}

module _ (F : Floats) (fresh : ℕ → ℕ) where
  open F use {Carrier}

  build_event-eq-ok :
      (s : Shared) (p : ScenePlan Carrier) (n : ℕ) (o : CanonicalEventOutput) (e : Event)
      → build_event F fresh s p n o ≡ ok e
      → e.participant_ids ≡ o.participant_ids
  unfolding build_event make_event
  build_event-eq-ok s p n o e h = ground arith

  build_claim-eq-ok :
      (s : Shared) (n : ℕ) (o : ClaimOutput) (c : Claim)
      → build_claim F fresh s n o ≡ ok c
      → (c.subject_ids ≡ o.subject_ids) × (c.provenance ≡ s.provenance)
  unfolding build_claim make_claim
  build_claim-eq-ok s n o c h = ground arith

  build_memory-eq-ok :
      (s : Shared) (events : List Event) (claims : List Claim) (n : ℕ) (o : MemoryOutput Carrier)
      (m : Memory Carrier)
      → build_memory F fresh s events claims n o ≡ ok m
      → (m.character_id ≡ o.character_id)
        × (m.provenance ≡ s.provenance)
        × (source (λ e. e.id) events o.source_event_index ≡ ok m.source_event_id)
        × (source (λ c. c.id) claims o.source_claim_index ≡ ok m.source_claim_id)
  unfolding build_memory make_memory
  build_memory-eq-ok s events claims n o m h = ground arith

  build_artifact-eq-ok :
      (s : Shared) (p : ScenePlan Carrier) (events : List Event) (claims : List Claim) (n : ℕ)
      (hook : PresentationHook) (a : PresentationArtifact)
      → build_artifact F fresh s p events claims n hook ≡ ok a
      → (a.source_scene_ids ≡ s.scene_id ∷ [])
        × (each (id_at F fresh (λ e. e.id) events) hook.event_indexes ≡ ok a.source_event_ids)
        × (each (id_at F fresh (λ c. c.id) claims) hook.claim_indexes ≡ ok a.source_claim_ids)
  unfolding build_artifact make_artifact
  build_artifact-eq-ok s p events claims n hook a h = ground arith

  build_parts-eq-ok :
      (s : Shared) (p : ScenePlan Carrier) (o : StructuredSceneOutput Carrier) (generation : Json)
      {r : GeneratedSceneRecord Carrier}
      → build_parts F fresh s p o generation ≡ ok r
      → (each_from (build_event F fresh s p) 1 o.events ≡ ok r.events)
        × (each_from (build_claim F fresh s) (1 + length o.events) o.claims ≡ ok r.claims)
        × (each_from
              (build_memory F fresh s r.events r.claims)
              (1 + length o.events + length o.claims)
              o.memories
            ≡ ok r.memories)
        × (make_scene (scene_of F fresh s p o r.events) ≡ ok r.scene)
        × (each_from
              (build_artifact F fresh s p r.events r.claims)
              (1 + length o.events + length o.claims + length o.memories)
              o.presentation_hooks
            ≡ ok r.artifacts)
  unfolding build_parts
  build_parts-eq-ok s p o generation h = ground arith

  made_scene : (s : Scene) {s' : Scene} → make_scene s ≡ ok s' → s' ≡ s
  unfolding make_scene
  made_scene s h = ground arith

  build_parts-IsScoped :
      (s : Shared) (p : ScenePlan Carrier) (o : StructuredSceneOutput Carrier) (generation : Json)
      {r : GeneratedSceneRecord Carrier}
      → s.provenance.source_id ≡ some s.scene_id
      → IsCastIn p.participant_ids o
      → build_parts F fresh s p o generation ≡ ok r
      → IsScoped p r
  build_parts-IsScoped s p o generation {r} own cast h =
      let (events, claims, memories, scene, artifacts) = build_parts-eq-ok s p o generation h in
      let same : r.scene ≡ scene_of F fresh s p o r.events = made_scene _ scene in
      let same_id : s.scene_id ≡ r.scene.id = ground (arith, same) in
      let event_ids = map (λ e. e.id) r.events in
      let claim_ids = map (λ c. c.id) r.claims in
      let memory_is = build_memory-eq-ok s r.events r.claims in
      let artifact_is = build_artifact-eq-ok s p r.events r.claims in
      record {
        event_cast =
            each_from-All (λ x. AllIn p.participant_ids x.participant_ids)
              (λ e. AllIn p.participant_ids e.participant_ids) _
              (λ n x e given built.
                subst (AllIn p.participant_ids) (sym (build_event-eq-ok s p n x e built)) given)
              1 o.events cast.events events;
        claim_cast =
            each_from-All (λ x. AllIn p.participant_ids x.subject_ids)
              (λ c. AllIn p.participant_ids c.subject_ids) _
              (λ n x c given built.
                subst (AllIn p.participant_ids) (sym (build_claim-eq-ok s n x c built).0) given)
              _ o.claims cast.claims claims;
        memory_cast =
            each_from-All (λ x. contains x.character_id p.participant_ids ≡ true)
              (λ m. contains m.character_id p.participant_ids ≡ true) _
              (λ n x m given built.
                subst (λ i. contains i p.participant_ids ≡ true) (sym (memory_is n x m built).0)
                  given)
              _ o.memories cast.memories memories;
        memory_events =
            each_from-built (λ m. FromIds m.source_event_id event_ids) _
              (λ n x m built.
                source-FromIds (λ e. e.id) r.events x.source_event_index (memory_is n x m built).2)
              _ o.memories memories;
        memory_claims =
            each_from-built (λ m. FromIds m.source_claim_id claim_ids) _
              (λ n x m built.
                source-FromIds (λ c. c.id) r.claims x.source_claim_index (memory_is n x m built).3)
              _ o.memories memories;
        artifact_scene =
            each_from-built (λ a. a.source_scene_ids ≡ r.scene.id ∷ []) _
              (λ n x a built. (artifact_is n x a built).0 ∙ ap (λ i. i ∷ []) same_id) _
              o.presentation_hooks artifacts;
        artifact_events =
            each_from-built (λ a. AllIn event_ids a.source_event_ids) _
              (λ n x a built.
                each-All (λ i. contains i event_ids ≡ true) _ (id_at-contains (λ e. e.id) r.events)
                  x.event_indexes (artifact_is n x a built).1)
              _ o.presentation_hooks artifacts;
        artifact_claims =
            each_from-built (λ a. AllIn claim_ids a.source_claim_ids) _
              (λ n x a built.
                each-All (λ i. contains i claim_ids ≡ true) _ (id_at-contains (λ c. c.id) r.claims)
                  x.claim_indexes (artifact_is n x a built).2)
              _ o.presentation_hooks artifacts;
        scene_events = ground (arith, same);
        claim_source =
            each_from-built (λ c. c.provenance.source_id ≡ some r.scene.id) _
              (λ n x c built.
                ap (λ v. v.source_id) (build_claim-eq-ok s n x c built).1 ∙ own ∙ ap some same_id)
              _ o.claims claims;
        memory_source =
            each_from-built (λ m. m.provenance.source_id ≡ some r.scene.id) _
              (λ n x m built.
                ap (λ v. v.source_id) (memory_is n x m built).1 ∙ own ∙ ap some same_id)
              _ o.memories memories;
      }

  provenance_kept : (v : Provenance) {w : Provenance} → make_provenance v ≡ ok w → w ≡ v
  unfolding make_provenance
  provenance_kept v h = ground arith

  -- A record that is built from an output that mentions only participants of the plan is scoped.
  build_record-IsScoped :
      (p : ScenePlan Carrier) (o : StructuredSceneOutput Carrier) (g : Generation)
      (generation : Json) {r : GeneratedSceneRecord Carrier}
      → validate_against_plan p o ≡ ok tt
      → build_record F fresh p o g generation ≡ ok r
      → IsScoped p r
  unfolding build_record
  build_record-IsScoped p o g generation {r} valid h =
      let (provenance, made, h₁) = >>=-eq-ok (make_provenance (scene_provenance F fresh p g)) _ h in
      let (lifecycle, _, built) = >>=-eq-ok (make_lifecycle (started p.scheduled_at)) _ h₁ in
      build_parts-IsScoped _ p o generation
        (ap (λ v. v.source_id) (provenance_kept (scene_provenance F fresh p g) made))
        (validated-IsCastIn p o valid) built

  module _ (dumps : Dumps Carrier)
      (generate_data : GenerationRequest
        → Result (GenerationResult (StructuredSceneOutput Carrier))) where
    received-IsScoped :
        (p : ScenePlan Carrier) (g : Generation) (data_ : Option (StructuredSceneOutput Carrier))
        {r : GeneratedSceneRecord Carrier}
        → received F dumps generate_data fresh p g data_ ≡ ok r
        → IsScoped p r
    received-IsScoped p g none h = cc
    received-IsScoped p g (some o) h =
        let (checked, valid, built) = >>=-eq-ok (validate_against_plan p o) _ h in
        build_record-IsScoped p o g (generation_json F dumps p o g) valid built

    -- Whatever a provider answers, a scene that `prepare` returns refers only to what it may refer
    -- to: its events, claims and memories mention none but the participants of the plan; each
    -- source of a memory is an event or a claim of the scene; and each artifact names the scene
    -- and some of its own events and claims as its sources.
    pub prepare-IsScoped :
        (p : ScenePlan Carrier) {r : GeneratedSceneRecord Carrier}
        → prepare F dumps generate_data fresh p ≡ ok r
        → IsScoped p r
    unfolding prepare
    prepare-IsScoped p h =
        let (result, _, h₁) = >>=-eq-ok (generate_data (request F dumps p)) _ h in
        received-IsScoped p result.generation result.data_ h₁
