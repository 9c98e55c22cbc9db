-- ===== src/Propagation/Simulate.antt =====
-- RumorPropagation.simulate (src/rumor_mill/engine/propagation.py). The dictionary `heard` is
-- the list of its entries in the order of their insertion; `uuid5` is the parameter `fresh` of
-- the claim, the number of records and the listener.
use rumor_mill_ai.Prelude.{
  ℕ, suc, ◌-◌, max, String, Bool, true, false, Option, none, some, List, [], ◌∷◌, ◌++◌, length,
  count_where, ◌==◌, if◌then◌else◌, Result, ok, ◌>>=◌,
}
use rumor_mill_ai.Floats.{Floats}
use rumor_mill_ai.Propagation.Rumors.{
  MutationKind, unchanged, omission, exaggeration, reinterpretation, RumorSeed,
  PropagationOpportunity, Retelling, PropagationGraph, Characters,
}
use rumor_mill_ai.Propagation.Retell.{Random, mutate, transmission_score, choose_mutation}

abbrev pub same_kind : MutationKind → MutationKind → Bool
same_kind unchanged unchanged = true
same_kind omission omission = true
same_kind exaggeration exaggeration = true
same_kind reinterpretation reinterpretation = true
same_kind _ _ = false

module _ {C : Type 0} where
  -- `heard.get(i)`, with what is found.
  abbrev pub lookup : ℕ → List (ℕ × Option (Retelling C)) → Option (Option (Retelling C))
  lookup i [] = none
  lookup i ((j, r) ∷ h) = if j == i then some r else lookup i h

  abbrev pub depth_of : Option (Retelling C) → ℕ
  depth_of none = 0
  depth_of (some r) = r.depth

  abbrev pub id_of : Option (Retelling C) → Option ℕ
  id_of none = none
  id_of (some r) = some r.id

  abbrev pub statement_of : RumorSeed C → Option (Retelling C) → String
  statement_of rumor none = rumor.statement
  statement_of rumor (some r) = r.statement

  -- `max((record.depth for record in records), default=0)`
  abbrev pub max_depth : List (Retelling C) → ℕ
  max_depth [] = 0
  max_depth (r ∷ rs) = max r.depth (max_depth rs)

-- The variables of the loop.
pub record Loop (C G : Type 0) : Type 0 where
  pub heard : List (ℕ × Option (Retelling C))
  pub records : List (Retelling C)
  pub suppressions : ℕ
  pub attempts : ℕ
  pub generator : G

module _ (F : Floats) (R : Random (F.Carrier)) (chars : Characters) (fresh : ℕ → ℕ → ℕ → ℕ)
    (rumor : RumorSeed (F.Carrier)) where
  open F use {Carrier, le}

  abbrev pub start : R.State → Loop Carrier (R.State)
  start g = record {
    heard = (rumor.speaker_id, none) ∷ [];
    records = [];
    suppressions = 0;
    attempts = 0;
    generator = g;
  }

  -- `Retelling(...)`
  abbrev pub retelling :
      PropagationOpportunity Carrier
      → Option (Retelling Carrier)
      → ℕ
      → MutationKind
      → String
      → Retelling Carrier
  retelling candidate source n mutation statement = record {
    id = fresh rumor.claim_id n candidate.listener_id;
    root_claim_id = rumor.claim_id;
    parent_id = id_of source;
    speaker_id = candidate.speaker_id;
    listener_id = candidate.listener_id;
    statement = statement;
    mutation = mutation;
    transmission_score = transmission_score F rumor candidate;
    depth = suc (depth_of source);
  }

  -- `records.append(record)` and `heard[candidate.listener_id] = record`, for a listener who
  -- is not in `heard`.
  abbrev pub remember :
      Retelling Carrier → R.State → Loop Carrier (R.State) → Loop Carrier (R.State)
  remember r g s = record s {
    heard = s.heard ++ (r.listener_id, some r) ∷ [];
    records = s.records ++ r ∷ [];
    generator = g;
  }

  -- The choice of a mutation, and the record.
  unfoldable pub retell :
      PropagationOpportunity Carrier
      → Option (Retelling Carrier)
      → R.State
      → Loop Carrier (R.State)
      → Result (Loop Carrier (R.State))
  unfolding choose_mutation mutate transmission_score
  retell candidate source g s =
      let (mutation, g') = choose_mutation F R rumor candidate g in
      mutate chars (statement_of rumor source) mutation >>= λ statement.
      ok (remember (retelling candidate source (length s.records) mutation statement) g' s)

  -- From the comparison of the score on.
  unfoldable pub tell :
      PropagationOpportunity Carrier
      → Option (Retelling Carrier)
      → Loop Carrier (R.State)
      → Result (Loop Carrier (R.State))
  unfolding retell
  tell candidate source s =
      let (x, g) = R.random s.generator in
      if le (transmission_score F rumor candidate) x
      then ok (record s { generator = g })
      else retell candidate source g s

  abbrev pub is_heard : Option (Option (Retelling Carrier)) → Bool
  is_heard none = false
  is_heard (some r) = true

  -- The body of the loop, by what is found of the speaker.
  unfoldable pub consider_found :
      Option (Option (Retelling Carrier))
      → PropagationOpportunity Carrier
      → Loop Carrier (R.State)
      → Result (Loop Carrier (R.State))
  unfolding tell
  consider_found none candidate s = ok s
  consider_found (some source) candidate s =
      let counted = record s { attempts = suc s.attempts } in
      if is_heard (lookup candidate.listener_id s.heard)
      then ok (record counted { suppressions = suc s.suppressions })
      else tell candidate source counted

  unfoldable pub loop :
      List (PropagationOpportunity Carrier)
      → Loop Carrier (R.State)
      → Result (Loop Carrier (R.State))
  unfolding consider_found
  loop [] s = ok s
  loop (candidate ∷ candidates) s =
      consider_found (lookup candidate.speaker_id s.heard) candidate s >>= λ s'. loop candidates s'

  abbrev pub graph : Loop Carrier (R.State) → PropagationGraph Carrier
  graph s = record {
    seed = rumor;
    retellings = s.records;
    metrics = record {
      attempts = s.attempts;
      transmissions = length s.records;
      loop_suppressions = s.suppressions;
      unique_recipients = length s.heard - 1;
      max_depth = max_depth s.records;
      mutations = λ kind. count_where (λ r. same_kind r.mutation kind) s.records;
    };
  }

  unfoldable pub simulate :
      List (PropagationOpportunity Carrier) → R.State → Result (PropagationGraph Carrier)
  unfolding loop
  simulate opportunities g = loop opportunities (start g) >>= λ s. ok (graph s)
