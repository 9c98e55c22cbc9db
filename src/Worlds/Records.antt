-- ===== src/Worlds/Records.antt =====
-- World rows (WorldRecord in src/rumor_mill/engine/ports/repositories.py, and
-- SqlAlchemyWorldRepository.get). The definition is the JSON that seeding wrote.
use rumor_mill_ai.Prelude.{ℕ, String, Option, List, find_first, ◌==◌}
use rumor_mill_ai.Json.{Json}

pub record WorldRecord : Type 0 where
  pub id : ℕ
  pub slug : String
  pub definition : Json

unfoldable pub get : ℕ → List WorldRecord → Option WorldRecord
get world_id t = find_first (λ w. w.id == world_id) t
