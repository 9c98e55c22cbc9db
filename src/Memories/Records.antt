-- ===== src/Memories/Records.antt =====
-- A memory (src/rumor_mill/engine/domain/subjective.py) and the memory repository
-- (SqlAlchemyMemoryRepository, src/rumor_mill/adapters/persistence/repositories.py). The columns
-- of a row repeat fields of the memory that its payload holds.
use rumor_mill_ai.Prelude.{
  ℕ, String, Bool, false, not, ◌&&◌, ◌||◌, Option, none, some, List, [], ◌∷◌, ◌++◌, map, ◌==◌, leb,
  ltb, select, Result, ok, raise_if, ◌>>◌, value_error,
}
use rumor_mill_ai.Prelude.Order.{sort_by}
use rumor_mill_ai.Floats.{Floats}
use rumor_mill_ai.Domain.Base.{
  Datetime, Provenance, Lifecycle, Visibility, require_aware, check_text, before, is_none,
}
use rumor_mill_ai.Domain.Subjective.{check_confidence}

pub record Memory (C : Type 0) : Type 0 where
  pub id : ℕ
  pub character_id : ℕ
  pub content : String
  pub source_event_id : Option ℕ
  pub source_claim_id : Option ℕ
  pub experienced_at : Datetime
  pub remembered_at : Datetime
  pub confidence : C
  pub salience : C
  pub plot_importance : C
  pub provenance : Provenance
  pub visibility : Visibility
  pub lifecycle : Lifecycle

-- `(event_id is None) == (claim_id is None)`
abbrev pub not_one : Option ℕ → Option ℕ → Bool
not_one event_id claim_id =
    is_none event_id && is_none claim_id || not (is_none event_id) && not (is_none claim_id)

-- `Memory(...)`
unfoldable pub make_memory : (F : Floats) → Memory (F.Carrier) → Result (Memory (F.Carrier))
unfolding check_text require_aware check_confidence
make_memory F m = do
  check_text m.content 1 4000
  check_confidence F m.confidence
  check_confidence F m.salience
  check_confidence F m.plot_importance
  require_aware m.experienced_at
  require_aware m.remembered_at
  raise_if (before m.remembered_at m.experienced_at)
      (value_error "remembered_at cannot be before experienced_at")
  raise_if (not_one m.source_event_id m.source_claim_id)
      (value_error "memory requires exactly one event or claim source")
  ok m

pub record MemoryModel (C : Type 0) : Type 0 where
  pub run_id : ℕ
  pub memory : Memory C

abbrev pub has_source : Option ℕ → ℕ → Bool
has_source none i = false
has_source (some j) i = j == i

module _ {C : Type 0} where
  unfoldable pub add : ℕ → Memory C → List (MemoryModel C) → List (MemoryModel C)
  add run_id memory t = t ++ record { run_id = run_id; memory = memory } ∷ []

  -- The WHERE clause of `find_by_source`.
  abbrev pub from_source : Option ℕ → Option ℕ → Memory C → Bool
  from_source (some i) claim_id m = has_source m.source_event_id i
  from_source none (some i) m = has_source m.source_claim_id i
  from_source none none m = false

  abbrev pub of_source : (run_id character_id : ℕ) → Option ℕ → Option ℕ → MemoryModel C → Bool
  of_source run_id character_id event_id claim_id r =
      r.run_id == run_id
      && (r.memory.character_id == character_id && from_source event_id claim_id r.memory)

  -- `ORDER BY remembered_at LIMIT 1`
  abbrev pub earlier : MemoryModel C → MemoryModel C → Bool
  earlier a b = leb a.memory.remembered_at.instant b.memory.remembered_at.instant

  abbrev pub head_memory : List (MemoryModel C) → Option (Memory C)
  head_memory [] = none
  head_memory (r ∷ rs) = some r.memory

  unfoldable pub find_by_source :
      (run_id character_id : ℕ)
      → Option ℕ
      → Option ℕ
      → List (MemoryModel C)
      → Result (Option (Memory C))
  unfolding sort_by
  find_by_source run_id character_id event_id claim_id t = do
    raise_if (not_one event_id claim_id) (value_error "exactly one memory source is required")
    ok (head_memory (sort_by earlier (select (of_source run_id character_id event_id claim_id) t)))

  -- `ORDER BY remembered_at DESC, id`
  abbrev pub later : MemoryModel C → MemoryModel C → Bool
  later a b =
      ltb b.memory.remembered_at.instant a.memory.remembered_at.instant
      || a.memory.remembered_at.instant == b.memory.remembered_at.instant
        && leb a.memory.id b.memory.id

  unfoldable pub list_for_character :
      (run_id character_id : ℕ) → List (MemoryModel C) → List (Memory C)
  unfolding sort_by
  list_for_character run_id character_id t =
      map (λ r. r.memory)
        (sort_by later
          (select (λ r. r.run_id == run_id && r.memory.character_id == character_id) t))
