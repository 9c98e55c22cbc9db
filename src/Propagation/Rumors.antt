-- ===== src/Propagation/Rumors.antt =====
-- The data of a propagation (src/rumor_mill/engine/propagation.py). `C` is the type of floats.
use Prim.Native.Char.{Char}
use rumor_mill_ai.Prelude.{
  ℕ, String, Bool, true, not, ◌&&◌, Option, List, Result, ok, raise_if, ◌>>◌, value_error, ◌==◌,
}
use rumor_mill_ai.Floats.{Floats, is_unit}

pub data MutationKind : Type 0 where
  unchanged omission exaggeration reinterpretation : MutationKind

pub record RumorSeed (C : Type 0) : Type 0 where
  pub claim_id : ℕ
  pub speaker_id : ℕ
  pub statement : String
  pub salience : C
  pub secrecy : C

pub record PropagationOpportunity (C : Type 0) : Type 0 where
  pub speaker_id : ℕ
  pub listener_id : ℕ
  pub opportunity : C
  pub trust : C
  pub motive : C

pub record Retelling (C : Type 0) : Type 0 where
  pub id : ℕ
  pub root_claim_id : ℕ
  pub parent_id : Option ℕ
  pub speaker_id : ℕ
  pub listener_id : ℕ
  pub statement : String
  pub mutation : MutationKind
  pub transmission_score : C
  pub depth : ℕ

pub record PropagationMetrics : Type 0 where
  pub attempts : ℕ
  pub transmissions : ℕ
  pub loop_suppressions : ℕ
  pub unique_recipients : ℕ
  pub max_depth : ℕ
  pub mutations : MutationKind → ℕ

pub record PropagationGraph (C : Type 0) : Type 0 where
  pub seed : RumorSeed C
  pub retellings : List (Retelling C)
  pub metrics : PropagationMetrics

-- The tables of characters that `str.split`, `str.strip` and `str.lower` consult.
pub record Characters : Type 0 where
  pub is_space : Char → Bool
  pub lower : Char → String

-- `not statement.strip()`
abbrev pub is_blank : Characters → String → Bool
is_blank chars String.[] = true
is_blank chars (String.◌∷◌ c s) = chars.is_space c && is_blank chars s

module _ (F : Floats) where
  open F use {Carrier}

  -- `_probability`
  abbrev pub probability : String → Carrier → Result (Unit {0})
  probability message value = raise_if (not (is_unit F value)) (value_error message)

  -- `RumorSeed.__post_init__`
  unfoldable pub make_seed : Characters → RumorSeed Carrier → Result (RumorSeed Carrier)
  make_seed chars seed = do
    raise_if (is_blank chars seed.statement) (value_error "rumor statement cannot be empty")
    probability "salience must be between 0 and 1" seed.salience
    probability "secrecy must be between 0 and 1" seed.secrecy
    ok seed

  -- `PropagationOpportunity.__post_init__`
  unfoldable pub make_opportunity :
      PropagationOpportunity Carrier → Result (PropagationOpportunity Carrier)
  make_opportunity o = do
    raise_if (o.speaker_id == o.listener_id) (value_error "speaker and listener must differ")
    probability "opportunity must be between 0 and 1" o.opportunity
    probability "trust must be between 0 and 1" o.trust
    probability "motive must be between 0 and 1" o.motive
    ok o
