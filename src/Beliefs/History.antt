-- ===== src/Beliefs/History.antt =====
-- The history of a belief explains its confidence, and its state says whether its evidence
-- conflicts.
use rumor_mill_ai.Prelude.{
  ℕ, ◌≡◌, refl, ap, sym, ◌∙◌, subst, true, false, not, ◌||◌, Option, some, List, [], ◌∷◌, ◌++◌,
  Result, ok, ◌>>=◌, >>=-eq-ok, arith, Bool-cases, inl, inr,
}
use rumor_mill_ai.Floats.{Floats}
use rumor_mill_ai.Domain.Base.{Provenance, Lifecycle, make_provenance, make_lifecycle, started}
use rumor_mill_ai.Domain.Subjective.{
  EvidenceStance, BeliefUpdate, Evidence, Belief, is_empty, make_update, make_belief,
}
use rumor_mill_ai.Beliefs.Store.{
  EvidenceInput, Store, get_current, add_evidence, add_version, is_supports,
}
use rumor_mill_ai.Beliefs.Versions.{get_current-add_version}
use rumor_mill_ai.Beliefs.Service.{
  Printing, effective_strength, updated_confidence, evidence_of, prior_of, supporting_of,
  conflicting_of, history_of, supporting_with, conflicting_with, state_with, draft, derived_from,
  state_from, update_of, revised, consider,
}

module _ (F : Floats) where
  open F use {Carrier, decimal}

  -- The updates lead from one confidence to another, each from where the one before it ended.
  abbrev pub Explains : Carrier → List (BeliefUpdate Carrier) → Carrier → Type 0
  Explains from [] to = from ≡ to
  Explains from (u ∷ us) to = (u.previous_confidence ≡ from) × Explains u.new_confidence us to

  Explains-append :
      (from mid : Carrier) (us : List (BeliefUpdate Carrier)) (u : BeliefUpdate Carrier)
      → Explains from us mid
      → u.previous_confidence ≡ mid
      → Explains from (us ++ u ∷ []) u.new_confidence
  Explains-append from mid [] u h e = (e ∙ sym h, refl)
  Explains-append from mid (x ∷ us) u h e = (h.0, Explains-append x.new_confidence mid us u h.1 e)

  make_belief_kept :
      (b b' : Belief Carrier)
      → (not (is_empty b.supporting_evidence_ids) || not (is_empty b.conflicting_evidence_ids))
        ≡ true
      → make_belief F b ≡ ok b'
      → b' ≡ b
  unfolding make_belief
  make_belief_kept b b' some_side h = ground arith

  make_update_kept : (u u' : BeliefUpdate Carrier) → make_update F u ≡ ok u' → u' ≡ u
  unfolding make_update
  make_update_kept u u' h = ground arith

  snoc-filled : (xs : List ℕ) (x : ℕ) → is_empty (xs ++ x ∷ []) ≡ false
  snoc-filled [] x = refl
  snoc-filled (y ∷ xs) x = refl

  evidence_counted :
      (current : Option (Belief Carrier)) (evidence_id : ℕ) (stance : EvidenceStance)
      → (not (is_empty (supporting_with F current evidence_id stance))
          || not (is_empty (conflicting_with F current evidence_id stance)))
        ≡ true
  evidence_counted current evidence_id stance = elim (Bool-cases (is_supports stance)) [
    | inl e ↦ rw (e, snoc-filled (supporting_of F current) evidence_id)
    | inr e ↦ rw (e, snoc-filled (conflicting_of F current) evidence_id) (ground (arith))
  ]

  -- What a revision by the evidence `evidence_id` makes of the current belief.
  pub record IsRevision (print : Printing Carrier) (character_id claim_id : ℕ)
      (current : Option (Belief Carrier)) (evidence_id : ℕ) (item : EvidenceInput Carrier)
      (b : Belief Carrier) : Type 0 where
    pub owner : (b.character_id ≡ character_id) × (b.claim_id ≡ claim_id)
    pub supporting : b.supporting_evidence_ids ≡ supporting_with F current evidence_id item.stance
    pub conflicting :
        b.conflicting_evidence_ids ≡ conflicting_with F current evidence_id item.stance
    pub all_evidence : b.evidence_ids ≡ b.supporting_evidence_ids ++ b.conflicting_evidence_ids
    pub state : b.state ≡ state_from F b.supporting_evidence_ids b.conflicting_evidence_ids
    pub confidence :
        b.confidence
        ≡ updated_confidence F (prior_of F current) item.stance (effective_strength F item)
    pub history :
        b.update_history
        ≡ history_of F current ++ update_of F print current evidence_id item b.state ∷ []

  draft-IsRevision :
      (print : Printing Carrier) (belief_id character_id claim_id evidence_id : ℕ)
      (current : Option (Belief Carrier)) (item : EvidenceInput Carrier) (u : BeliefUpdate Carrier)
      (p : Provenance) (l : Lifecycle)
      → u
        ≡ update_of F print current evidence_id item (state_with F current evidence_id item.stance)
      → IsRevision print character_id claim_id current evidence_id item
          (draft F belief_id character_id claim_id evidence_id current item u p l)
  draft-IsRevision print belief_id character_id claim_id evidence_id current item u p l e = record {
    owner = (refl, refl);
    supporting = refl;
    conflicting = refl;
    all_evidence = refl;
    state = refl;
    confidence = ap (λ x. x.new_confidence) e ∙ unfold update_of in refl;
    history = ap (λ x. history_of F current ++ x ∷ []) e;
  }

  pub revised-IsRevision :
      (print : Printing Carrier) (belief_id character_id claim_id evidence_id : ℕ)
      (current : Option (Belief Carrier)) (item : EvidenceInput Carrier) (b : Belief Carrier)
      → revised F print belief_id character_id claim_id evidence_id current item ≡ ok b
      → IsRevision print character_id claim_id current evidence_id item b
  unfolding revised
  revised-IsRevision print belief_id character_id claim_id evidence_id current item b h =
      let made = λ (u : BeliefUpdate Carrier) (p : Provenance) (l : Lifecycle).
        draft F belief_id character_id claim_id evidence_id current item u p l in
      let (u, updated, rest) =
        >>=-eq-ok
          (make_update F (
            update_of F print current evidence_id item
              (state_with F current evidence_id item.stance)))
          (λ u. make_provenance (derived_from F evidence_id item) >>= λ p.
            make_lifecycle (started item.occurred_at) >>= λ l. make_belief F (made u p l))
          h in
      let (p, sourced, rest') =
        >>=-eq-ok (make_provenance (derived_from F evidence_id item))
          (λ p. make_lifecycle (started item.occurred_at) >>= λ l. make_belief F (made u p l))
          rest in
      let (l, begun, last) =
        >>=-eq-ok (make_lifecycle (started item.occurred_at)) (λ l. make_belief F (made u p l))
          rest' in
      let same =
        make_belief_kept (made u p l) b (evidence_counted current evidence_id item.stance) last in
      subst (IsRevision print character_id claim_id current evidence_id item) (sym same) (
        draft-IsRevision print belief_id character_id claim_id evidence_id current item u p l
          (make_update_kept _ u updated))

  revised-Explains :
      (print : Printing Carrier) (character_id claim_id evidence_id : ℕ)
      (current : Option (Belief Carrier)) (item : EvidenceInput Carrier) (b : Belief Carrier)
      → Explains (decimal 5 1) (history_of F current) (prior_of F current)
      → IsRevision print character_id claim_id current evidence_id item b
      → Explains (decimal 5 1) b.update_history b.confidence
  revised-Explains print character_id claim_id evidence_id current item b h r =
      let u = update_of F print current evidence_id item b.state in
      rw (r.history, r.confidence)
        (unfold update_of in
          Explains-append (decimal 5 1) (prior_of F current) (history_of F current) u h refl)

  ok-pair :
      {A B : Type 0} (a b : A) (x y : B)
      → let p : A × B = (a, x) in let q : A × B = (b, y) in ok p ≡ ok q → (a ≡ b) × (x ≡ y)
  ok-pair a b x y e = (cc e, cc e)

  becomes_current :
      (run_id character_id claim_id : ℕ) (belief b : Belief Carrier) (evidence : Evidence Carrier)
      (s : Store Carrier)
      → belief ≡ b
      → (b.character_id ≡ character_id) × (b.claim_id ≡ claim_id)
      → get_current run_id character_id claim_id
          (add_version run_id belief (add_evidence run_id evidence s))
        ≡ some b
  becomes_current run_id character_id claim_id belief b evidence s e own =
      rw
        (
          e,
          get_current-add_version run_id character_id claim_id run_id b
              (add_evidence run_id evidence s),
          own.0,
          own.1,
        )
        (ground arith)

  -- Considering evidence. If the history of the character's current belief on the claim leads
  -- from 0.5 to its confidence, each update from where the one before it ended (no belief counts
  -- as an empty history at 0.5), and `consider` succeeds, then the same holds of the belief that
  -- it returns, that belief is the revision of the former one by the evidence, and it is the
  -- current belief of the store that results.
  pub consider-Explains :
      (print : Printing Carrier) (evidence_id belief_id run_id character_id claim_id : ℕ)
      (item : EvidenceInput Carrier) (s s' : Store Carrier) (b : Belief Carrier)
      → Explains
          (decimal 5 1)
          (history_of F (get_current run_id character_id claim_id s))
          (prior_of F (get_current run_id character_id claim_id s))
      → consider F print evidence_id belief_id run_id character_id claim_id item s ≡ ok (b, s')
      → Explains (decimal 5 1) b.update_history b.confidence
        × IsRevision print character_id claim_id
            (get_current run_id character_id claim_id s)
            evidence_id
            item
            b
        × (get_current run_id character_id claim_id s' ≡ some b)
  unfolding consider
  consider-Explains print evidence_id belief_id run_id character_id claim_id item s s' b h e =
      let current = get_current run_id character_id claim_id s in
      let stored : Evidence Carrier → Belief Carrier → Result (Belief Carrier × Store Carrier) =
        λ evidence belief.
          ok (belief, add_version run_id belief (add_evidence run_id evidence s)) in
      let after : Evidence Carrier → Result (Belief Carrier × Store Carrier) = λ evidence.
        revised F print belief_id character_id claim_id evidence_id current item
        >>= stored evidence in
      let (evidence, made, rest) = >>=-eq-ok (evidence_of F evidence_id claim_id item) after e in
      let (belief, held, last) =
        >>=-eq-ok (revised F print belief_id character_id claim_id evidence_id current item)
          (stored evidence) rest in
      let same : (belief ≡ b) × (add_version run_id belief (add_evidence run_id evidence s) ≡ s') =
        ok-pair belief b _ s' last in
      let r =
        revised-IsRevision print belief_id character_id claim_id evidence_id current item b
          (held ∙ ap ok same.0) in
      (
        revised-Explains print character_id claim_id evidence_id current item b h r,
        r,
        subst (λ x. get_current run_id character_id claim_id x ≡ some b) same.1
            (becomes_current run_id character_id claim_id belief b evidence s same.0 r.owner),
      )
