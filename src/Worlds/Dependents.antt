-- ===== src/Worlds/Dependents.antt =====
-- Beats that can be reached, and the dependents of a beat (`dependents` in Worlds/Continuity).
use mathlib.Core.List.Memᴰ.{head, tail, not-nil}
use rumor_mill_ai.Prelude.{
  ℕ, ◌≡◌, refl, subst, inl, inr, true, ◌||◌, List, [], ◌∷◌, ◌++◌, contains, ◌==◌, arith, All,
  All-append, All-weaken, Bool-cases,
}
use rumor_mill_ai.Prelude.Member.{Member}
use rumor_mill_ai.Worlds.Authoring.{AuthoredBeat, WorldDefinition}
use rumor_mill_ai.Worlds.Continuity.{repeats, dependents}

-- A beat can be reached if it is an entry, or depends on one that can be reached.
pub data Reach (world : WorldDefinition) : ℕ → Type 0 where
  entry : {id : ℕ} → contains id world.beat_graph.entry_beat_ids ≡ true → Reach world id
  step :
      (beat : AuthoredBeat) (dependency : ℕ)
      → Member beat world.beat_graph.beats
      → contains dependency beat.depends_on ≡ true
      → Reach world dependency
      → Reach world beat.id

pub contains-append :
    (n : ℕ) (xs ys : List ℕ) → contains n (xs ++ ys) ≡ (contains n xs || contains n ys)
contains-append n [] ys = refl
contains-append n (x ∷ xs) ys = ground (arith, contains-append n xs ys)

pub All-contains {κ} :
    (P : ℕ → Type κ) (i : ℕ) (xs : List ℕ) → All P xs → contains i xs ≡ true → P i
All-contains P i [] h k = absurd (cc)
All-contains P i (x ∷ xs) h k = elim (Bool-cases (i == x)) [
  | inl same ↦ subst P (ground arith) h.0
  | inr other ↦ All-contains P i xs h.1 (ground arith)
]

pub members : {A : Type 0} (xs : List A) → All (λ x. Member x xs) xs
members [] = tt
members (x ∷ xs) = (
  head refl,
  All-weaken (λ y. Member y xs) (λ y. Member y (x ∷ xs)) (λ y m. tail m) xs (members xs),
)

repeats-All {κ} :
    (Q : ℕ → Type κ) (beat_id id : ℕ) (dependencies : List ℕ)
    → (contains beat_id dependencies ≡ true → Q id)
    → All Q (repeats beat_id id dependencies)
repeats-All Q beat_id id [] h = tt
repeats-All Q beat_id id (d ∷ ds) h = elim (Bool-cases (d == beat_id)) [
  | inl same ↦ rw same (h (ground arith), repeats-All Q beat_id id ds (λ k. h (ground arith)))
  | inr other ↦ rw other (repeats-All Q beat_id id ds (λ k. h (ground arith)))
]

pub dependents-All {κ} :
    (Q : ℕ → Type κ) (beat_id : ℕ) (beats : List AuthoredBeat)
    → All (λ beat. contains beat_id beat.depends_on ≡ true → Q beat.id) beats
    → All Q (dependents beats beat_id)
unfolding dependents
dependents-All Q beat_id [] h = tt
dependents-All Q beat_id (beat ∷ beats) h =
    All-append Q (repeats beat_id beat.id beat.depends_on) (dependents beats beat_id)
      (repeats-All Q beat_id beat.id beat.depends_on h.0) (dependents-All Q beat_id beats h.1)

contains-repeats :
    (beat_id id : ℕ) (dependencies : List ℕ)
    → contains beat_id dependencies ≡ true
    → contains id (repeats beat_id id dependencies) ≡ true
contains-repeats beat_id id [] h = cc
contains-repeats beat_id id (d ∷ ds) h = ground (arith, contains-repeats beat_id id ds)

pub contains-dependents :
    (beat_id : ℕ) (beat : AuthoredBeat) (beats : List AuthoredBeat)
    → Member beat beats
    → contains beat_id beat.depends_on ≡ true
    → contains beat.id (dependents beats beat_id) ≡ true
unfolding dependents
contains-dependents beat_id beat [] m h = absurd (not-nil m)
contains-dependents beat_id beat (b ∷ beats) (head e) h = ground (
  arith,
  contains-append beat.id (repeats beat_id b.id b.depends_on) (dependents beats beat_id),
  subst (λ c. contains beat.id (repeats beat_id c.id c.depends_on) ≡ true) e
      (contains-repeats beat_id beat.id beat.depends_on h),
)
contains-dependents beat_id beat (b ∷ beats) (tail m) h = ground (
  arith,
  contains-append beat.id (repeats beat_id b.id b.depends_on) (dependents beats beat_id),
  contains-dependents beat_id beat beats m h,
)
