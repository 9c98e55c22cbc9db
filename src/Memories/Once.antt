-- ===== src/Memories/Once.antt =====
-- A character remembers each source once.
use rumor_mill_ai.Prelude.{
  ℕ, ◌≡◌, refl, ap, Bool, true, false, Option, none, some, List, [], ◌∷◌, select, select-append, ok,
  ◌>>=◌, >>=-eq-ok, arith, Bool-cases, inl, inr,
}
use rumor_mill_ai.Prelude.Order.{sort_by, sort_by-eq-nil}
use rumor_mill_ai.Floats.{Floats}
use rumor_mill_ai.Domain.Base.{Provenance, Lifecycle, make_provenance, make_lifecycle, started}
use rumor_mill_ai.Propagation.Rumors.{Characters}
use rumor_mill_ai.Memories.Records.{
  Memory, MemoryModel, not_one, make_memory, add, of_source, from_source, earlier, head_memory,
  find_by_source,
}
use rumor_mill_ai.Memories.Formation.{
  MemorySourceKind, witnessed_event, communicated_claim, MemoryFormation, kind_of,
  source_kind_value, event_of, claim_of, check_formation, draft, new_memory, unless_found, form,
}

module _ {C : Type 0} where
  earlier-total : (a b : MemoryModel C) → earlier a b ≡ false → earlier b a ≡ true
  earlier-total a b h = ground arith

  earlier_trans :
      (a b c : MemoryModel C) → earlier a b ≡ true → earlier b c ≡ true → earlier a c ≡ true
  earlier_trans a b c h k = ground arith

  head_memory-none : (l : List (MemoryModel C)) → head_memory l ≡ none → l ≡ []
  head_memory-none [] h = refl
  head_memory-none (r ∷ rs) h = cc h

  -- A search that found nothing finds the memory that is added for it.
  find_by_source-add :
      (run_id character_id : ℕ) (event_id claim_id : Option ℕ) (m : Memory C)
      (t : List (MemoryModel C))
      → find_by_source run_id character_id event_id claim_id t ≡ ok none
      → of_source run_id character_id event_id claim_id (record { run_id = run_id; memory = m })
        ≡ true
      → find_by_source run_id character_id event_id claim_id (add run_id m t) ≡ ok (some m)
  unfolding find_by_source add
  find_by_source-add run_id character_id event_id claim_id m t nothing own =
      elim (Bool-cases (not_one event_id claim_id)) [
        | inl bad ↦ absurd (cc (rw bad at nothing))
        | inr one ↦
            let searched : ok (head_memory (sort_by earlier (select p t))) ≡ ok none =
              rw one at nothing in
            let empty : head_memory (sort_by earlier (select p t)) ≡ none = cc searched in
            let none_before : select p t ≡ [] =
              sort_by-eq-nil earlier earlier-total earlier_trans (select p t)
                (head_memory-none (sort_by earlier (select p t)) empty) in
            rw
              (
                one,
                select-append p t (record { run_id = run_id; memory = m } ∷ []),
                none_before,
                own,
              )
              refl
      ]
    where
      p : MemoryModel C → Bool
      p = of_source run_id character_id event_id claim_id

module _ (F : Floats) (chars : Characters) where
  open F use {Carrier}

  make_memory_kept : (m m' : Memory Carrier) → make_memory F m ≡ ok m' → m' ≡ m
  unfolding make_memory
  make_memory_kept m m' h = ground arith

  from_source-of_kind :
      (kind : MemorySourceKind) (i : ℕ) (m : Memory Carrier)
      → m.source_event_id ≡ event_of kind i
      → m.source_claim_id ≡ claim_of kind i
      → from_source (event_of kind i) (claim_of kind i) m ≡ true
  from_source-of_kind witnessed_event i m e c = rw e (ground arith)
  from_source-of_kind communicated_claim i m e c = rw c (ground arith)

  -- The memory that is formed is of the character and the source.
  new_memory-source :
      (id run_id : ℕ) (f : MemoryFormation Carrier) (m : Memory Carrier)
      → new_memory F chars id f ≡ ok m
      → of_source run_id f.character_id
          (event_of f.source_kind f.source_id)
          (claim_of f.source_kind f.source_id)
          (record { run_id = run_id; memory = m })
        ≡ true
  unfolding new_memory
  new_memory-source id run_id f m h =
      let made : Provenance → Lifecycle → Memory Carrier = λ p l. draft F chars id f p l in
      let origin : Provenance = record {
        kind = kind_of f.source_kind;
        source_id = some f.source_id;
        recorded_at = f.experienced_at;
        detail = some (source_kind_value f.source_kind);
      } in
      let (p, sourced, rest) =
        >>=-eq-ok (make_provenance origin)
          (λ p. make_lifecycle (started f.experienced_at) >>= λ l. make_memory F (made p l)) h in
      let (l, begun, last) =
        >>=-eq-ok (make_lifecycle (started f.experienced_at)) (λ l. make_memory F (made p l))
          rest in
      let same : m ≡ made p l = make_memory_kept (made p l) m last in
      let own : from_source (event_of f.source_kind f.source_id)
            (claim_of f.source_kind f.source_id) m
          ≡ true =
        from_source-of_kind f.source_kind f.source_id m (ap (λ x. x.source_event_id) same)
          (ap (λ x. x.source_claim_id) same) in
      let character : m.character_id ≡ f.character_id = ap (λ x. x.character_id) same in
      ground (arith, own, character)

  -- Forming a memory again from the same formation, under whatever new identifier, returns the
  -- memory that was formed first and leaves the store as it is.
  pub form-again :
      (id other run_id : ℕ) (f : MemoryFormation Carrier) (t t' : List (MemoryModel Carrier))
      (m : Memory Carrier)
      → form F chars id run_id f t ≡ ok (m, t')
      → form F chars other run_id f t' ≡ ok (m, t')
  unfolding form
  form-again id other run_id f t t' m h =
      let event = event_of f.source_kind f.source_id in
      let claim = claim_of f.source_kind f.source_id in
      let (u, checked, rest) =
        >>=-eq-ok (check_formation F chars f)
          (λ u.
            find_by_source run_id f.character_id event claim t
            >>= unless_found F chars id run_id f t)
          h in
      let (o, found, last) =
        >>=-eq-ok (find_by_source run_id f.character_id event claim t)
          (unless_found F chars id run_id f t) rest in
      rw checked (by_search o found last)
    where
      Again : Type 0
      Again =
          (find_by_source run_id f.character_id (event_of f.source_kind f.source_id)
              (claim_of f.source_kind f.source_id) t'
            >>= unless_found F chars other run_id f t')
          ≡ ok (m, t')

      by_search :
          (o : Option (Memory Carrier))
          → find_by_source run_id f.character_id
              (event_of f.source_kind f.source_id)
              (claim_of f.source_kind f.source_id)
              t
            ≡ ok o
          → unless_found F chars id run_id f t o ≡ ok (m, t')
          → Again
      by_search (some existing) found last =
          unfold unless_found in
          let store : t ≡ t' = cc last in
          let same : existing ≡ m = cc last in rw (← store, found, same) refl
      by_search none found last =
          unfold unless_found in
          let (n, made, stored) =
            >>=-eq-ok (new_memory F chars id f) (λ x. ok (x, add run_id x t)) last in
          let store : add run_id n t ≡ t' = cc stored in
          let same : n ≡ m = cc stored in
          let searched =
            find_by_source-add run_id f.character_id (event_of f.source_kind f.source_id)
              (claim_of f.source_kind f.source_id) n t found
              (new_memory-source id run_id f n made) in
          rw (← store, searched, same) refl
