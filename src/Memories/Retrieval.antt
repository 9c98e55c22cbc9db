-- ===== src/Memories/Retrieval.antt =====
-- MemoryService.retrieve and summarize (src/rumor_mill/engine/memory.py). The exponential and the
-- terms of a text, which a regular expression finds, are parameters; identifiers print in their
-- own order.
use Prim.Native.String.{◌++◌ as str_append}
use rumor_mill_ai.Prelude.{
  ℕ, ◌+◌, ◌-◌, ◌/◌, String, Bool, not, ◌&&◌, ◌||◌, Option, none, some, List, [], ◌∷◌, map, select,
  any, length, max, str_eq, ◌==◌, leb, ltb, if◌then◌else◌, Result, Exc, ok, raise, raise_if, ◌>>=◌,
  ◌>>◌, value_error,
}
use rumor_mill_ai.Prelude.Order.{sort_by}
use rumor_mill_ai.Text.{join}
use rumor_mill_ai.Floats.{Floats, is_unit}
use rumor_mill_ai.Domain.Base.{Datetime, require_aware, text_length}
use rumor_mill_ai.Memories.Records.{Memory, MemoryModel, list_for_character}

pub record MemoryQuery (C : Type 0) : Type 0 where
  pub text : String
  pub now : Datetime
  pub token_budget : ℕ
  pub relationship : C
  pub recency_half_life_days : C
  pub forget_below : C

pub record RetrievedMemory (C : Type 0) : Type 0 where
  pub memory : Memory C
  pub score : C
  pub token_cost : ℕ
  pub source_kind : String
  pub source_id : ℕ

-- The terms of a text, each once.
abbrev pub common : List String → List String → List String
common terms others = select (λ t. any (str_eq t) others) terms

-- `"event" if … else "claim"`, and `source_event_id or source_claim_id`.
abbrev pub source_of : Option ℕ → Option ℕ → Result (String × ℕ)
source_of (some i) claim_id = ok ("event", i)
source_of none (some i) = ok ("claim", i)
source_of none none = raise (Exc.other "AssertionError")

-- `max(1, ceil(len(content) / 4))`
unfoldable pub token_cost : String → ℕ
unfolding text_length
token_cost content = max 1 ((text_length content + 3) / 4)

module _ (F : Floats) (exp : F.Carrier → F.Carrier) (terms_of : String → List String) where
  open F use {Carrier, add, sub, mul, div, le, lt, of_ℕ, decimal, total_seconds}

  -- `MemoryQuery.__post_init__`; a negative budget is no number of the model.
  unfoldable pub make_query : MemoryQuery Carrier → Result (MemoryQuery Carrier)
  unfolding require_aware
  make_query q = do
    require_aware q.now
    raise_if (not (is_unit F q.relationship)) (value_error "relationship must be between 0 and 1")
    raise_if (le q.recency_half_life_days (of_ℕ 0))
        (value_error "recency_half_life_days must be positive")
    raise_if (not (is_unit F q.forget_below)) (value_error "forget_below must be between 0 and 1")
    ok q

  -- `now - remembered_at` stops at 0, as `max(0.0, …)` does.
  unfoldable pub recency : MemoryQuery Carrier → Memory Carrier → Carrier
  recency q m =
      let age = div (total_seconds (q.now.instant - m.remembered_at.instant)) (of_ℕ 86400) in
      exp (div (mul (sub (of_ℕ 0) (decimal 6931471805599453 16)) age) q.recency_half_life_days)

  abbrev pub relevance : List String → List String → Carrier
  relevance [] others = of_ℕ 0
  relevance (t ∷ ts) others = div (of_ℕ (length (common (t ∷ ts) others))) (of_ℕ (length (t ∷ ts)))

  unfoldable pub score : MemoryQuery Carrier → Memory Carrier → Carrier
  unfolding recency
  score q m =
      add
        (add
          (add
            (add (mul (decimal 35 2) (relevance (terms_of q.text) (terms_of m.content)))
              (mul (decimal 25 2) (recency q m)))
            (mul (decimal 15 2) m.salience))
          (mul (decimal 10 2) q.relationship))
        (mul (decimal 15 2) m.plot_importance)

  abbrev pub is_forgotten : MemoryQuery Carrier → Memory Carrier → Bool
  is_forgotten q m = lt (mul (recency q m) m.salience) q.forget_below

  abbrev pub retrieved : MemoryQuery Carrier → Memory Carrier → String × ℕ → RetrievedMemory Carrier
  retrieved q m (kind, id) = record {
    memory = m;
    score = score q m;
    token_cost = token_cost m.content;
    source_kind = kind;
    source_id = id;
  }

  -- The loop over memories.
  unfoldable pub rank :
      MemoryQuery Carrier → List (Memory Carrier) → Result (List (RetrievedMemory Carrier))
  unfolding score token_cost
  rank q [] = ok []
  rank q (m ∷ ms) =
      if is_forgotten q m
      then rank q ms
      else (source_of m.source_event_id m.source_claim_id >>= λ source.
          rank q ms >>= λ rest. ok (retrieved q m source ∷ rest))

  -- The key `(-score, -timestamp, str(id))`.
  abbrev pub ahead : RetrievedMemory Carrier → RetrievedMemory Carrier → Bool
  ahead a b =
      lt b.score a.score
      || not (lt a.score b.score)
        && (ltb b.memory.remembered_at.instant a.memory.remembered_at.instant
            || a.memory.remembered_at.instant == b.memory.remembered_at.instant
              && leb a.memory.id b.memory.id)

  -- The loop over ranked memories, with the budget that remains.
  unfoldable pub within_budget : ℕ → List (RetrievedMemory Carrier) → List (RetrievedMemory Carrier)
  within_budget remaining [] = []
  within_budget remaining (item ∷ items) = elim (leb item.token_cost remaining) [
    | Bool.true ↦ item ∷ within_budget (remaining - item.token_cost) items
    | Bool.false ↦ within_budget remaining items
  ]

  -- `retrieve`
  unfoldable pub retrieve :
      (run_id character_id : ℕ)
      → MemoryQuery Carrier
      → List (MemoryModel Carrier)
      → Result (List (RetrievedMemory Carrier))
  unfolding rank within_budget sort_by list_for_character
  retrieve run_id character_id q t = rank q (list_for_character run_id character_id t) >>= λ ranked.
      ok (within_budget q.token_budget (sort_by ahead ranked))

  -- `summarize`, with the printing of identifiers.
  abbrev pub line : (ℕ → String) → RetrievedMemory Carrier → String
  line print item = str_append "- [" (
      str_append item.source_kind
        (str_append ":" (str_append (print item.source_id) (str_append "] " item.memory.content))))

  unfoldable pub summarize : (ℕ → String) → List (RetrievedMemory Carrier) → String
  unfolding join
  summarize print items = join "\n" (map (line print) items)
