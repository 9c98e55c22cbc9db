-- ===== src/Worlds/Visit.antt =====
-- The loop over the dependents of a beat (`visit` in Worlds/Continuity).
use rumor_mill_ai.Prelude.{
  ℕ, suc, ◌+◌, ◌≤◌, ◌≡◌, sym, subst, ◌⊎◌, inl, inr, true, false, not, List, [], ◌∷◌, contains,
  count_where, length, ◌==◌, arith, All, Bool-cases,
}
use rumor_mill_ai.Worlds.Continuity.{push, visit}

pub visit-known :
    (id : ℕ) (ids reachable : List ℕ)
    → contains id reachable ≡ true
    → visit (id ∷ ids) reachable ≡ visit ids reachable
unfolding visit
visit-known id ids reachable h = ground (arith, h)

visit-new :
    (id : ℕ) (ids reachable : List ℕ)
    → contains id reachable ≡ false
    → visit (id ∷ ids) reachable ≡ push id (visit ids (id ∷ reachable))
unfolding visit
visit-new id ids reachable h = ground (arith, h)

-- The loop over dependents.
pub visit-All {κ} :
    (P : ℕ → Type κ) (ids reachable : List ℕ)
    → All P ids
    → All P reachable
    → All P (visit ids reachable).0 × All P (visit ids reachable).1
unfolding visit
visit-All P [] reachable h k = (k, tt)
visit-All P (id ∷ ids) reachable h k = elim (Bool-cases (contains id reachable)) [
  | inl known ↦ rw (visit-known id ids reachable known) (visit-All P ids reachable h.1 k)
  | inr new ↦
      rw (visit-new id ids reachable new)
        (let rest = visit-All P ids (id ∷ reachable) h.1 (h.0, k) in (rest.0, (h.0, rest.1)))
]

-- It keeps what was reachable, reaches the dependents, and queues whatever is new.
pub visit_mono :
    (x : ℕ) (ids reachable : List ℕ)
    → contains x reachable ≡ true
    → contains x (visit ids reachable).0 ≡ true
unfolding visit
visit_mono x [] reachable h = h
visit_mono x (id ∷ ids) reachable h = elim (Bool-cases (contains id reachable)) [
  | inl known ↦ rw (visit-known id ids reachable known) (visit_mono x ids reachable h)
  | inr new ↦ rw (visit-new id ids reachable new) (visit_mono x ids (id ∷ reachable) (ground arith))
]

pub visit-reaches :
    (ids reachable : List ℕ) → All (λ x. contains x (visit ids reachable).0 ≡ true) ids
unfolding visit
visit-reaches [] reachable = tt
visit-reaches (id ∷ ids) reachable = elim (Bool-cases (contains id reachable)) [
  | inl known ↦
      subst (λ v. All (λ x. contains x v.0 ≡ true) (id ∷ ids))
        (sym (visit-known id ids reachable known))
        (visit_mono id ids reachable known, visit-reaches ids reachable)
  | inr new ↦
      subst (λ v. All (λ x. contains x v.0 ≡ true) (id ∷ ids))
        (sym (visit-new id ids reachable new))
        (visit_mono id ids (id ∷ reachable) (ground arith), visit-reaches ids (id ∷ reachable))
]

pub visit-queues :
    (x : ℕ) (ids reachable : List ℕ)
    → contains x (visit ids reachable).0 ≡ true
    → (contains x reachable ≡ true) ⊎ (contains x (visit ids reachable).1 ≡ true)
unfolding visit
visit-queues x [] reachable h = inl h
visit-queues x (id ∷ ids) reachable h = elim (Bool-cases (contains id reachable)) [
  | inl known ↦
      rw (visit-known id ids reachable known)
        (visit-queues x ids reachable (rw (visit-known id ids reachable known) at h))
  | inr new ↦
      rw (visit-new id ids reachable new)
        (elim (visit-queues x ids (id ∷ reachable) (rw (visit-new id ids reachable new) at h)) [
          | inl before ↦ elim (Bool-cases (x == id)) [
            | inl same ↦ inr (ground arith)
            | inr other ↦ inl (ground arith)
          ]
          | inr queued ↦ inr (ground arith)
        ])
]

-- How many of some identifiers are not reachable yet.
unfoldable pub unvisited : List ℕ → List ℕ → ℕ
unvisited reachable ids = count_where (λ i. not (contains i reachable)) ids

unvisited-cons :
    (id : ℕ) (reachable ids : List ℕ) → unvisited (id ∷ reachable) ids ≤ unvisited reachable ids
unfolding unvisited
unvisited-cons id reachable [] = omega arith
unvisited-cons id reachable (i ∷ ids) = ground (arith, unvisited-cons id reachable ids)

pub unvisited-new :
    (id : ℕ) (reachable ids : List ℕ)
    → contains id ids ≡ true
    → contains id reachable ≡ false
    → suc (unvisited (id ∷ reachable) ids) ≤ unvisited reachable ids
unfolding unvisited
unvisited-new id reachable [] h k = absurd (cc)
unvisited-new id reachable (i ∷ ids) h k = elim (Bool-cases (id == i)) [
  | inl same ↦ ground (arith, unvisited-cons id reachable ids)
  | inr other ↦ ground (arith, unvisited-new id reachable ids (ground arith) k)
]

pub visit-unvisited :
    (all_ids ids reachable : List ℕ)
    → All (λ x. contains x all_ids ≡ true) ids
    → length (visit ids reachable).1 + unvisited (visit ids reachable).0 all_ids
      ≤ unvisited reachable all_ids
unfolding visit
visit-unvisited all_ids [] reachable h = omega arith
visit-unvisited all_ids (id ∷ ids) reachable h = elim (Bool-cases (contains id reachable)) [
  | inl known ↦ rw (visit-known id ids reachable known) (visit-unvisited all_ids ids reachable h.1)
  | inr new ↦ rw (visit-new id ids reachable new) (
      omega (
        arith,
        unvisited-new id reachable all_ids h.0 new,
        visit-unvisited all_ids ids (id ∷ reachable) h.1,
      ))
]

pub unvisited_le : (reachable ids : List ℕ) → unvisited reachable ids ≤ length ids
unfolding unvisited
unvisited_le reachable [] = omega arith
unvisited_le reachable (i ∷ ids) = ground (arith, unvisited_le reachable ids)
