-- ===== src/Memories/Formation.antt =====
-- MemoryService.form (src/rumor_mill/engine/memory.py). The identifier that `uuid4` draws is an
-- argument.
use rumor_mill_ai.Prelude.{
  ℕ, String, not, Option, none, some, List, Result, ok, raise_if, ◌>>=◌, ◌>>◌, value_error,
}
use rumor_mill_ai.Text.{strip}
use rumor_mill_ai.Floats.{Floats, is_unit}
use rumor_mill_ai.Domain.Base.{
  Datetime, Provenance, ProvenanceKind, Lifecycle, Visibility, require_aware, make_provenance,
  make_lifecycle, started,
}
use rumor_mill_ai.Propagation.Rumors.{Characters, is_blank}
use rumor_mill_ai.Memories.Records.{Memory, MemoryModel, make_memory, add, find_by_source}

pub data MemorySourceKind : Type 0 where
  witnessed_event communicated_claim : MemorySourceKind

pub record MemoryFormation (C : Type 0) : Type 0 where
  pub character_id : ℕ
  pub content : String
  pub source_kind : MemorySourceKind
  pub source_id : ℕ
  pub experienced_at : Datetime
  pub confidence : C
  pub salience : C
  pub plot_importance : C

abbrev pub source_kind_value : MemorySourceKind → String
source_kind_value witnessed_event = "witnessed_event"
source_kind_value communicated_claim = "communicated_claim"

abbrev pub kind_of : MemorySourceKind → ProvenanceKind
kind_of witnessed_event = ProvenanceKind.observed
kind_of communicated_claim = ProvenanceKind.reported

abbrev pub event_of : MemorySourceKind → ℕ → Option ℕ
event_of witnessed_event i = some i
event_of communicated_claim i = none

abbrev pub claim_of : MemorySourceKind → ℕ → Option ℕ
claim_of witnessed_event i = none
claim_of communicated_claim i = some i

module _ (F : Floats) (chars : Characters) where
  open F use {Carrier}

  abbrev check_unit : Carrier → String → Result (Unit {0})
  check_unit x message = raise_if (not (is_unit F x)) (value_error message)

  -- The checks before the transaction.
  unfoldable pub check_formation : MemoryFormation Carrier → Result (Unit {0})
  unfolding require_aware
  check_formation f = do
    require_aware f.experienced_at
    raise_if (is_blank chars f.content) (value_error "memory content cannot be empty")
    check_unit f.confidence "confidence must be between 0 and 1"
    check_unit f.salience "salience must be between 0 and 1"
    check_unit f.plot_importance "plot_importance must be between 0 and 1"

  -- The arguments of `Memory(...)`.
  abbrev pub draft : ℕ → MemoryFormation Carrier → Provenance → Lifecycle → Memory Carrier
  draft id f provenance lifecycle = record {
    id = id;
    character_id = f.character_id;
    content = strip chars.is_space f.content;
    source_event_id = event_of f.source_kind f.source_id;
    source_claim_id = claim_of f.source_kind f.source_id;
    experienced_at = f.experienced_at;
    remembered_at = f.experienced_at;
    confidence = f.confidence;
    salience = f.salience;
    plot_importance = f.plot_importance;
    provenance = provenance;
    visibility = Visibility.private;
    lifecycle = lifecycle;
  }

  unfoldable pub new_memory : ℕ → MemoryFormation Carrier → Result (Memory Carrier)
  unfolding make_memory make_provenance make_lifecycle started strip
  new_memory id f = do
    provenance ← make_provenance (record {
      kind = kind_of f.source_kind;
      source_id = some f.source_id;
      recorded_at = f.experienced_at;
      detail = some (source_kind_value f.source_kind);
    })
    lifecycle ← make_lifecycle (started f.experienced_at)
    make_memory F (draft id f provenance lifecycle)

  -- What follows the search for a memory from the same source.
  unfoldable pub unless_found :
      (id run_id : ℕ)
      → MemoryFormation Carrier
      → List (MemoryModel Carrier)
      → Option (Memory Carrier)
      → Result (Memory Carrier × List (MemoryModel Carrier))
  unfolding new_memory add
  unless_found id run_id f t (some existing) = ok (existing, t)
  unless_found id run_id f t none = new_memory id f >>= λ m. ok (m, add run_id m t)

  unfoldable pub form :
      (id run_id : ℕ)
      → MemoryFormation Carrier
      → List (MemoryModel Carrier)
      → Result (Memory Carrier × List (MemoryModel Carrier))
  unfolding check_formation unless_found
  form id run_id f t =
      check_formation f
      >> (find_by_source run_id f.character_id (event_of f.source_kind f.source_id)
            (claim_of f.source_kind f.source_id) t
          >>= unless_found id run_id f t)
