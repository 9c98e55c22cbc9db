-- ===== src/Scenes/Stored.antt =====
-- What the tables of scenes keep (Scenes/Store).
use rumor_mill_ai.Prelude.{
  ℕ, suc, ◌<◌, ◌≡◌, refl, sym, subst, ap, ◌∙◌, Bool, true, false, ◌||◌, List, [], ◌∷◌, ◌++◌, map,
  map-append, append-nil, select, select-append, any, contains, unique, max, ◌==◌, if◌then◌else◌,
  ok, arith, All, All-append, All-weaken,
}
use rumor_mill_ai.Domain.Canon.{Event}
use rumor_mill_ai.Scenes.Build.{GeneratedSceneRecord}
use rumor_mill_ai.Scenes.Store.{
  Story, SceneModel, next_sequence, event_rows, add_generated, with_record, event_sequences,
  scene_sequences,
}

-- Sequence numbers below a bound.
abbrev Below : ℕ → List ℕ → Type 0
Below n ns = All (λ m. m < n) ns

next_sequence-Below : (ns : List ℕ) → Below (next_sequence ns) ns
unfolding next_sequence
next_sequence-Below [] = tt
next_sequence-Below (n ∷ ns) = (
  omega arith,
  All-weaken (λ m. m < next_sequence ns) (λ m. m < max (suc n) (next_sequence ns))
      (λ m h. omega arith) ns (next_sequence-Below ns),
)

absent-Below : (n : ℕ) (ns : List ℕ) → Below n ns → contains n ns ≡ false
absent-Below n [] h = refl
absent-Below n (m ∷ ns) h = ground (arith, absent-Below n ns h.1)

contains-append :
    (n : ℕ) (xs ys : List ℕ) → contains n (xs ++ ys) ≡ (contains n xs || contains n ys)
contains-append n [] ys = refl
contains-append n (x ∷ xs) ys = ground (arith, contains-append n xs ys)

-- The numbers of the rows of new events: from `n` on.
abbrev numbers : ℕ → List Event → List ℕ
numbers n [] = []
numbers n (e ∷ es) = n ∷ numbers (suc n) es

unique-snoc :
    (xs : List ℕ) (n : ℕ) → unique xs ≡ true → contains n xs ≡ false → unique (xs ++ n ∷ []) ≡ true
unique-snoc [] n h k = refl
unique-snoc (x ∷ xs) n h k = ground (arith, unique-snoc xs n, contains-append x xs (n ∷ []))

append-cons : (xs : List ℕ) (n : ℕ) (ys : List ℕ) → xs ++ (n ∷ ys) ≡ (xs ++ n ∷ []) ++ ys
append-cons [] n ys = refl
append-cons (x ∷ xs) n ys = ap (λ l. x ∷ l) (append-cons xs n ys)

unique-numbers :
    (xs : List ℕ) (n : ℕ) (es : List Event)
    → unique xs ≡ true
    → Below n xs
    → unique (xs ++ numbers n es) ≡ true
unique-numbers xs n [] h below = ground (arith, append-nil xs)
unique-numbers xs n (e ∷ es) h below =
    subst (λ l. unique l ≡ true) (sym (append-cons xs n (numbers (suc n) es)))
      (unique-numbers (xs ++ n ∷ []) (suc n) es (unique-snoc xs n h (absent-Below n xs below)) (
        All-append (λ m. m < suc n) xs (n ∷ [])
          (All-weaken (λ m. m < n) (λ m. m < suc n) (λ m l. omega arith) xs below)
          (omega arith, tt)))

rows_of_run :
    (run_id i n : ℕ) (es : List Event)
    → map (λ row. row.sequence) (select (λ row. row.run_id == i) (event_rows run_id n es))
      ≡ (if run_id == i then numbers n es else [])
rows_of_run run_id i n [] = ground arith
rows_of_run run_id i n (e ∷ es) = ground (arith, rows_of_run run_id i (suc n) es)

unique-if :
    (b : Bool) (xs new : List ℕ)
    → unique xs ≡ true
    → (b ≡ true → unique (xs ++ new) ≡ true)
    → unique (xs ++ (if b then new else [])) ≡ true
unique-if true xs new h k = k refl
unique-if false xs new h k = ground (arith, append-nil xs)

module _ {C : Type 0} where
  -- Within a run no two scenes and no two events share a sequence number, as the tables demand.
  unfoldable pub IsSequenced : Story C → Type 0
  IsSequenced t =
      (run_id : ℕ)
      → (unique (scene_sequences run_id t) ≡ true) × (unique (event_sequences run_id t) ≡ true)

  grown_events :
      (run_id i : ℕ) (r : GeneratedSceneRecord C) (t : Story C)
      → event_sequences i (with_record run_id r t)
        ≡ event_sequences i t
          ++ (if run_id == i
              then numbers (next_sequence (event_sequences run_id t)) r.events
              else [])
  grown_events run_id i r t =
      let new = event_rows run_id (next_sequence (event_sequences run_id t)) r.events in
      ap (map (λ row. row.sequence)) (select-append (λ row. row.run_id == i) t.events new)
      ∙ map-append (λ row. row.sequence) (select (λ row. row.run_id == i) t.events) _
      ∙ ap (λ l. event_sequences i t ++ l) (rows_of_run run_id i _ r.events)

  grown_scenes :
      (run_id i : ℕ) (r : GeneratedSceneRecord C) (t : Story C)
      → scene_sequences i (with_record run_id r t)
        ≡ scene_sequences i t
          ++ (if run_id == i then next_sequence (scene_sequences run_id t) ∷ [] else [])
  grown_scenes run_id i r t =
      let new : List SceneModel =
        record {
          run_id = run_id;
          sequence = next_sequence (scene_sequences run_id t);
          scene = r.scene;
          generation = r.generation;
        }
        ∷ [] in
      ap (map (λ row. row.sequence)) (select-append (λ row. row.run_id == i) t.scenes new)
      ∙ map-append (λ row. row.sequence) (select (λ row. row.run_id == i) t.scenes) _
      ∙ ap (λ l. scene_sequences i t ++ l) (ground arith)

  with_record-IsSequenced :
      (run_id : ℕ) (r : GeneratedSceneRecord C) (t : Story C)
      → IsSequenced t
      → IsSequenced (with_record run_id r t)
  unfolding IsSequenced
  with_record-IsSequenced run_id r t h i = (
    subst (λ l. unique l ≡ true) (sym (grown_scenes run_id i r t))
        (unique-if (run_id == i) (scene_sequences i t) _ (h i).0 (λ same.
          subst
            (λ j.
              unique (scene_sequences j t ++ next_sequence (scene_sequences run_id t) ∷ []) ≡ true)
            (ground arith)
            (unique-snoc (scene_sequences run_id t) _ (h run_id).0
              (absent-Below _ _ (next_sequence-Below (scene_sequences run_id t)))))),
    subst (λ l. unique l ≡ true) (sym (grown_events run_id i r t))
        (unique-if (run_id == i) (event_sequences i t) _ (h i).1 (λ same.
          subst
            (λ j.
              unique
                (event_sequences j t ++ numbers (next_sequence (event_sequences run_id t)) r.events)
              ≡ true)
            (ground arith)
            (unique-numbers (event_sequences run_id t) _ r.events (h run_id).1
              (next_sequence-Below (event_sequences run_id t))))),
  )

  pub added :
      (run_id : ℕ) (r : GeneratedSceneRecord C) (t : Story C) {t' : Story C}
      → add_generated run_id r t ≡ ok t'
      → (t' ≡ with_record run_id r t)
        × (any (λ i. contains i (map (λ row. row.scene.id) t.scenes)) (r.scene.id ∷ []) ≡ false)
        × (any (λ i. contains i (map (λ row. row.event.id) t.events)) (map (λ e. e.id) r.events)
            ≡ false)
  unfolding add_generated
  added run_id r t h = ground arith

  -- Adding a generated scene keeps the numbering: if no two scenes and no two events of a run
  -- share a sequence number, then none do after a scene was added to any run.
  pub add_generated-IsSequenced :
      (run_id : ℕ) (r : GeneratedSceneRecord C) (t t' : Story C)
      → IsSequenced t
      → add_generated run_id r t ≡ ok t'
      → IsSequenced t'
  add_generated-IsSequenced run_id r t t' h done =
      subst IsSequenced (sym (added run_id r t done).0) (with_record-IsSequenced run_id r t h)
