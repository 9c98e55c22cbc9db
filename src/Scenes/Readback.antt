-- ===== src/Scenes/Readback.antt =====
-- A scene that was added is read back (Scenes/Store).
use rumor_mill_ai.Prelude.{
  All-map, ℕ, suc, ◌≡◌, refl, ap, ◌∙◌, Bool, true, false, ◌&&◌, some, List, [], ◌∷◌, ◌++◌, map,
  select, select-append, any, contains, find_first, ◌==◌, ok, arith, All, All-weaken,
}
use rumor_mill_ai.Prelude.Order.{sort_by, insert_by}
use rumor_mill_ai.Domain.Canon.{Event, PresentationArtifact}
use rumor_mill_ai.Scenes.Build.{GeneratedSceneRecord}
use rumor_mill_ai.Scenes.Stored.{added}
use rumor_mill_ai.Scenes.Store.{
  Story, SceneModel, EventModel, ArtifactModel, next_sequence, event_rows, add_generated, get,
  scene_row, with_record, record_of, event_sequences, by_sequence, mentions, artifacts_of,
  artifact_row,
}

module _ {ℓ} {A : Type ℓ} where
  select_kept : (p : A → Bool) (xs : List A) → All (λ x. p x ≡ true) xs → select p xs ≡ xs
  select_kept p [] h = refl
  select_kept p (x ∷ xs) h = ground (arith, h.0, select_kept p xs h.1)

  select_dropped : (p : A → Bool) (xs : List A) → All (λ x. p x ≡ false) xs → select p xs ≡ []
  select_dropped p [] h = refl
  select_dropped p (x ∷ xs) h = ground (arith, h.0, select_dropped p xs h.1)

  -- Only what was added is selected.
  select_new :
      (p : A → Bool) (old new : List A)
      → All (λ x. p x ≡ false) old
      → All (λ x. p x ≡ true) new
      → select p (old ++ new) ≡ new
  select_new p old new h k =
      select-append p old new ∙ rw (select_dropped p old h, select_kept p new k) refl

  map_mapped :
      {B : Type ℓ} (f : A → B) (g : B → A) (xs : List A)
      → ((x : A) → g (f x) ≡ x)
      → map g (map f xs) ≡ xs
  map_mapped f g [] h = refl
  map_mapped f g (x ∷ xs) h = rw (h x, map_mapped f g xs h) refl

-- Rows of consecutive events are in order.
insert-event_rows :
    (run_id n : ℕ) (e : Event) (es : List Event)
    → insert_by by_sequence
        (record { run_id = run_id; sequence = n; event = e })
        (event_rows run_id (suc n) es)
      ≡ event_rows run_id n (e ∷ es)
unfolding insert_by
insert-event_rows run_id n e [] = refl
insert-event_rows run_id n e (d ∷ es) = ground arith

sort-event_rows :
    (run_id n : ℕ) (es : List Event)
    → sort_by by_sequence (event_rows run_id n es) ≡ event_rows run_id n es
unfolding sort_by
sort-event_rows run_id n [] = refl
sort-event_rows run_id n (e ∷ es) =
    rw (sort-event_rows run_id (suc n) es) (insert-event_rows run_id n e es)

events-event_rows :
    (run_id n : ℕ) (es : List Event) → map (λ row. row.event) (event_rows run_id n es) ≡ es
events-event_rows run_id n [] = refl
events-event_rows run_id n (e ∷ es) = ap (λ l. e ∷ l) (events-event_rows run_id (suc n) es)

artifacts-artifact_row :
    (run_id scene_id : ℕ) (xs : List PresentationArtifact)
    → artifacts_of (map (artifact_row run_id scene_id) xs) ≡ xs
artifacts-artifact_row run_id scene_id [] = refl
artifacts-artifact_row run_id scene_id (a ∷ xs) =
    ap (λ l. a ∷ l) (artifacts-artifact_row run_id scene_id xs)

-- Identifiers of which none is in the other list.
apart-one :
    (o : ℕ) (old new : List ℕ)
    → any (λ i. contains i (o ∷ old)) new ≡ false
    → (contains o new ≡ false) × (any (λ i. contains i old) new ≡ false)
apart-one o old [] h = (refl, refl)
apart-one o old (n ∷ new) h = ground (arith, apart-one o old new)

apart :
    (old new : List ℕ)
    → any (λ i. contains i old) new ≡ false
    → All (λ o. contains o new ≡ false) old
apart [] new h = tt
apart (o ∷ old) new h = let split = apart-one o old new h in (split.0, apart old new split.1)

All-of_map {κ} :
    {A : Type 0} (P : ℕ → Type κ) (f : A → ℕ) (xs : List A)
    → All P (map f xs)
    → All (λ x. P (f x)) xs
All-of_map P f [] h = tt
All-of_map P f (x ∷ xs) h = (h.0, All-of_map P f xs h.1)

found_last :
    (id : ℕ) (row : SceneModel) (t : List SceneModel)
    → row.scene.id ≡ id
    → contains id (map (λ r. r.scene.id) t) ≡ false
    → find_first (λ r. r.scene.id == id) (t ++ row ∷ []) ≡ some row
found_last id row [] same h = ground arith
found_last id row (r ∷ t) same h = ground (arith, found_last id row t same)

event_rows-selected :
    (run_id n : ℕ) (ids : List ℕ) (es : List Event)
    → All (λ e. contains e.id ids ≡ true) es
    → All
        (λ row. (row.run_id == run_id && contains row.event.id ids) ≡ true)
        (event_rows run_id n es)
event_rows-selected run_id n ids [] h = tt
event_rows-selected run_id n ids (e ∷ es) h =
    (ground (arith, h.0), event_rows-selected run_id (suc n) ids es h.1)

own_ids : (es : List Event) → All (λ e. contains e.id (map (λ d. d.id) es) ≡ true) es
own_ids [] = tt
own_ids (e ∷ es) = (
  ground arith,
  All-weaken (λ d. contains d.id (map (λ c. c.id) es) ≡ true)
      (λ d. contains d.id (map (λ c. c.id) (e ∷ es)) ≡ true) (λ d h. ground arith) es (own_ids es),
)

every : {A : Type 0} {P : A → Type 0} → ((x : A) → P x) → (xs : List A) → All P xs
every h [] = tt
every h (x ∷ xs) = (h x, every h xs)

-- Rows made from values, of which only the new ones pass a test.
read_mapped :
    {V R : Type 0} (test : R → Bool) (row : V → R) (value : R → V) (old : List R) (new : List V)
    → ((v : V) → value (row v) ≡ v)
    → All (λ x. test x ≡ false) old
    → All (λ v. test (row v) ≡ true) new
    → map value (select test (old ++ map row new)) ≡ new
read_mapped test row value old new back dropped kept =
    rw (select_new test old (map row new) dropped (All-map (λ x. test x ≡ true) row new kept))
      (map_mapped row value new back)

read_artifacts :
    (run_id scene_id : ℕ) (old : List ArtifactModel) (new : List PresentationArtifact)
    → All (λ row. mentions row.scene_id scene_id ≡ false) old
    → artifacts_of (
        select
          (λ row. mentions row.scene_id scene_id)
          (old ++ map (artifact_row run_id scene_id) new))
      ≡ new
read_artifacts run_id scene_id old new dropped =
    rw
      (select_new (λ row. mentions row.scene_id scene_id) old
        (map (artifact_row run_id scene_id) new) dropped
        (All-map (λ row. mentions row.scene_id scene_id ≡ true) (artifact_row run_id scene_id) new
          (every (λ a. ground arith) new)))
      (artifacts-artifact_row run_id scene_id new)

module _ {C : Type 0} where
  -- No row of a story mentions a scene.
  pub record IsUnmentioned (scene_id : ℕ) (t : Story C) : Type 0 where
    pub by_claims : All (λ row. mentions row.claim.provenance.source_id scene_id ≡ false) t.claims
    pub by_memories :
        All (λ row. mentions row.memory.provenance.source_id scene_id ≡ false) t.memories
    pub by_artifacts : All (λ row. mentions row.scene_id scene_id ≡ false) t.artifacts

  -- A record whose claims and memories name its scene as their source, and whose scene lists its
  -- events.
  pub record IsOneScene (r : GeneratedSceneRecord C) : Type 0 where
    pub scene_events : r.scene.event_ids ≡ map (λ e. e.id) r.events
    pub claim_source : All (λ c. c.provenance.source_id ≡ some r.scene.id) r.claims
    pub memory_source : All (λ m. m.provenance.source_id ≡ some r.scene.id) r.memories

  read_events :
      (run_id n : ℕ) (r : GeneratedSceneRecord C) (old : List EventModel)
      → r.scene.event_ids ≡ map (λ e. e.id) r.events
      → any (λ i. contains i (map (λ row. row.event.id) old)) (map (λ e. e.id) r.events) ≡ false
      → map
          (λ row. row.event)
          (sort_by by_sequence (
            select
              (λ row. row.run_id == run_id && contains row.event.id r.scene.event_ids)
              (old ++ event_rows run_id n r.events)))
        ≡ r.events
  read_events run_id n r old listed fresh =
      let ids = map (λ e. e.id) r.events in
      let old_apart : All (λ row. contains row.event.id ids ≡ false) old =
        All-of_map (λ o. contains o ids ≡ false) (λ row. row.event.id) old (apart _ ids fresh) in
      rw
        (
          listed,
          select_new (λ row. row.run_id == run_id && contains row.event.id ids) old
              (event_rows run_id n r.events) (All-weaken _ _ (λ row h. ground arith) old old_apart)
              (event_rows-selected run_id n ids r.events (own_ids r.events)),
          sort-event_rows run_id n r.events,
        )
        (events-event_rows run_id n r.events)

  read_record :
      (run_id : ℕ) (r : GeneratedSceneRecord C) (t : Story C)
      → IsOneScene r
      → IsUnmentioned r.scene.id t
      → any (λ i. contains i (map (λ row. row.event.id) t.events)) (map (λ e. e.id) r.events)
        ≡ false
      → record_of (with_record run_id r t) (scene_row run_id r t) ≡ r
  read_record run_id r t one unmentioned fresh =
      let id = r.scene.id in
      let events =
        read_events run_id (next_sequence (event_sequences run_id t)) r t.events one.scene_events
          fresh in
      let claims =
        read_mapped (λ row. row.run_id == run_id && mentions row.claim.provenance.source_id id)
          (λ c. record { run_id = run_id; claim = c }) (λ row. row.claim) t.claims r.claims
          (λ c. refl) (All-weaken _ _ (λ row h. ground arith) t.claims unmentioned.by_claims)
          (All-weaken _ _ (λ c h. ground arith) r.claims one.claim_source) in
      let memories =
        read_mapped (λ row. row.run_id == run_id && mentions row.memory.provenance.source_id id)
          (λ m. record { run_id = run_id; memory = m }) (λ row. row.memory) t.memories r.memories
          (λ m. refl) (All-weaken _ _ (λ row h. ground arith) t.memories unmentioned.by_memories)
          (All-weaken _ _ (λ m h. ground arith) r.memories one.memory_source) in
      let artifacts = read_artifacts run_id id t.artifacts r.artifacts unmentioned.by_artifacts in
      rw (events, claims, memories, artifacts) refl

  -- A generated scene that was added is read back as it was given: its claims and memories name
  -- the scene as their source, the scene lists its events, and nothing in the story mentioned the
  -- scene before.
  pub get-add_generated :
      (run_id : ℕ) (r : GeneratedSceneRecord C) (t t' : Story C)
      → IsOneScene r
      → IsUnmentioned r.scene.id t
      → add_generated run_id r t ≡ ok t'
      → get r.scene.id t' ≡ some r
  unfolding get
  get-add_generated run_id r t t' one unmentioned done =
      let (same, new_scene, new_events) = added run_id r t done in
      let found =
        found_last r.scene.id (scene_row run_id r t) t.scenes refl (ground (arith, new_scene)) in
      rw (same, found) (ap some (read_record run_id r t one unmentioned new_events))
