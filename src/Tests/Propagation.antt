-- ===== src/Tests/Propagation.antt =====
-- A rumor with three opportunities, and the theorems on its propagation.
use rumor_mill_ai.Prelude.{
  ℕ, suc, ◌+◌, ◌≤◌, ◌≡◌, refl, String, true, List, [], ◌∷◌, length, unique, str_eq, ok,
}
use rumor_mill_ai.Prelude.Int.{ℤ, pos}
use rumor_mill_ai.Floats.Micro.{micro}
use rumor_mill_ai.Propagation.Rumors.{
  RumorSeed, PropagationOpportunity, PropagationGraph, Characters,
}
use rumor_mill_ai.Propagation.Retell.{Random}
use rumor_mill_ai.Propagation.Simulate.{simulate}
use rumor_mill_ai.Propagation.Traced.{Told, listeners, simulate_lem}
use rumor_mill_ai.Propagation.Outcome.{simulate-total}

-- A generator that draws 0 for ever, so that everything is told, as an omission.
abbrev zeros : Random ℤ
zeros = record { State = ℕ; random = λ g. (pos 0, suc g); choice = λ g a b c. (a, g) }

abbrev ascii : Characters
ascii = record {
  is_space = λ c. str_eq (String.◌∷◌ c String.[]) " ";
  lower = λ c. String.◌∷◌ c String.[];
}

abbrev fresh : ℕ → ℕ → ℕ → ℕ
fresh claim n listener = n + 100

abbrev rumor : RumorSeed ℤ
rumor = record {
  claim_id = 8;
  speaker_id = 1;
  statement = "the keeper left town";
  salience = pos 800000;
  secrecy = pos 200000;
}

abbrev meeting : ℕ → ℕ → PropagationOpportunity ℤ
meeting speaker listener = record {
  speaker_id = speaker;
  listener_id = listener;
  opportunity = pos 900000;
  trust = pos 700000;
  motive = pos 500000;
}

abbrev meetings : List (PropagationOpportunity ℤ)
meetings = meeting 1 2 ∷ meeting 2 1 ∷ meeting 2 3 ∷ meeting 9 4 ∷ []

simulate-total_example :
    (result : PropagationGraph ℤ) × (simulate micro zeros ascii fresh rumor meetings 0 ≡ ok result)
simulate-total_example = simulate-total micro zeros ascii fresh rumor meetings 0 refl

simulate_lem_example :
    Told rumor simulate-total_example.0.retellings
    × (unique (rumor.speaker_id ∷ listeners rumor simulate-total_example.0.retellings) ≡ true)
    × (simulate-total_example.0.metrics.unique_recipients
        ≡ simulate-total_example.0.metrics.transmissions)
    × (simulate-total_example.0.metrics.transmissions
          + simulate-total_example.0.metrics.loop_suppressions
        ≤ simulate-total_example.0.metrics.attempts)
    × (simulate-total_example.0.metrics.attempts ≤ length meetings)
simulate_lem_example =
    simulate_lem micro zeros ascii fresh rumor meetings 0 simulate-total_example.0
      simulate-total_example.1
