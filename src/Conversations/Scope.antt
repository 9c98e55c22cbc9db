-- ===== src/Conversations/Scope.antt =====
-- What the checks on a proposed output come to (Conversations/Safety).
use Prim.Native.Char.{Char}
use rumor_mill_ai.Prelude.{
  concat_map, ◌≤◌, ◌≡◌, ◌↔◌, refl, String, Bool, true, false, not, map, any, contains, subset, All,
  All-weaken, leb, Exc, ok, raise_if, ◌>>◌, arith, Bool-cases, inl, inr,
}
use rumor_mill_ai.Prelude.Member.{Member}
use rumor_mill_ai.Prelude.Sets.{
  subset_sound, subset_complete, none_pass, any_none, none_selected, selected_none,
  contains-concat_map, concat_map_elim,
}
use rumor_mill_ai.Domain.Base.{text_length}
use rumor_mill_ai.Text.{occurs}
use rumor_mill_ai.Conversations.Context.{ConversationContext, ConversationBelief}
use rumor_mill_ai.Conversations.Output.{CharacterConversationOutput}
use rumor_mill_ai.Conversations.Safety.{
  markers, exposed, normalize_for_safety, discloses, allowed_claims, cited_claims,
  protected_statements, validate_output,
}

module _ (is_space : Char → Bool) (fold : String → String) where
  abbrev normal : String → String
  normal s = normalize_for_safety is_space fold s

  -- The text does not contain the statement, unless that is shorter than twelve characters.
  abbrev pub Keeps : (text statement : String) → Type 0
  Keeps text statement =
      12 ≤ text_length (normal statement) → occurs (normal statement) text ≡ false

  -- An output that stays within its context: it cites what the character remembers, believes or
  -- is shown, states nothing that a boundary protects, and quotes no private instruction.
  pub record IsInScope {C : Type 0} (c : ConversationContext C) (o : CharacterConversationOutput C)
      : Type 0 where
    pub memories :
        All (λ i. Member i (map (λ m. m.memory_id) c.relevant_memories)) o.cited_memory_ids
    pub claims : All (λ i. Member i (allowed_claims c)) (cited_claims o)
    pub undisclosed :
        All
          (λ b.
            All
              (λ d.
                Member b.claim_id d.protected_claim_ids → Keeps (normal (exposed o)) b.statement)
              c.disclosure_boundaries)
          c.beliefs
    pub unquoted : All (λ marker. occurs marker (normal (exposed o)) ≡ false) markers

  discloses_sound :
      (text statement : String)
      → discloses is_space fold text statement ≡ false
      → Keeps text statement
  unfolding discloses
  discloses_sound text statement h = λ long. ground (arith, h, long)

  discloses_complete :
      (text statement : String)
      → Keeps text statement
      → discloses is_space fold text statement ≡ false
  unfolding discloses
  discloses_complete text statement h =
      elim (Bool-cases (leb 12 (text_length (normal statement)))) [
        | inl long ↦ ground (arith, long, h (ground (arith, long)))
        | inr short ↦ ground (arith, short)
      ]

  module _ {C : Type 0} (c : ConversationContext C) (text : String) where
    abbrev protected : ConversationBelief C → Bool
    protected b =
        contains b.claim_id (concat_map (λ d. d.protected_claim_ids) c.disclosure_boundaries)

    abbrev Undisclosed : ConversationBelief C → Type 0
    Undisclosed b =
        All (λ d. Member b.claim_id d.protected_claim_ids → Keeps text b.statement)
          c.disclosure_boundaries

    belief_sound :
        (b : ConversationBelief C)
        → (protected b ≡ true → discloses is_space fold text b.statement ≡ false)
        → Undisclosed b
    belief_sound b h =
        All-weaken (λ d. Member b.claim_id d.protected_claim_ids → protected b ≡ true)
          (λ d. Member b.claim_id d.protected_claim_ids → Keeps text b.statement)
          (λ d p m. discloses_sound text b.statement (h (p m))) c.disclosure_boundaries
          (contains-concat_map b.claim_id (λ d. d.protected_claim_ids) c.disclosure_boundaries)

    belief_complete :
        (b : ConversationBelief C)
        → Undisclosed b
        → protected b ≡ true
        → discloses is_space fold text b.statement ≡ false
    belief_complete b h p = discloses_complete text b.statement (
        concat_map_elim {K = Keeps text b.statement} b.claim_id (λ d. d.protected_claim_ids)
          c.disclosure_boundaries h p)

    boundaries_sound :
        any (discloses is_space fold text) (protected_statements c) ≡ false
        → All Undisclosed c.beliefs
    unfolding protected_statements
    boundaries_sound h =
        All-weaken (λ b. protected b ≡ true → discloses is_space fold text b.statement ≡ false)
          Undisclosed belief_sound c.beliefs
          (none_selected (discloses is_space fold text) (λ b. b.statement) protected c.beliefs h)

    boundaries_complete :
        All Undisclosed c.beliefs
        → any (discloses is_space fold text) (protected_statements c) ≡ false
    unfolding protected_statements
    boundaries_complete h =
        selected_none (discloses is_space fold text) (λ b. b.statement) protected c.beliefs
          (All-weaken Undisclosed
            (λ b. protected b ≡ true → discloses is_space fold text b.statement ≡ false)
            belief_complete c.beliefs h)

  all_passed :
      (a b c d : Bool) (e f g i : Exc)
      → (raise_if a e >> (raise_if b f >> (raise_if c g >> raise_if d i))) ≡ ok tt
      → (a ≡ false) × (b ≡ false) × (c ≡ false) × (d ≡ false)
  all_passed a b c d e f g i h = ground arith

  -- An output is accepted exactly if it stays within its context.
  pub validate_output_iff :
      {C : Type 0} (c : ConversationContext C) (o : CharacterConversationOutput C)
      → (validate_output is_space fold c o ≡ ok tt) ↔ IsInScope c o
  unfolding validate_output
  validate_output_iff c o = (kept_within, let_through)
    where
      text : String
      text = normal (exposed o)

      kept_within : validate_output is_space fold c o ≡ ok tt → IsInScope c o
      kept_within h =
          let cited = subset o.cited_memory_ids (map (λ m. m.memory_id) c.relevant_memories) in
          let claimed = subset (cited_claims o) (allowed_claims c) in
          let (memories, claims, undisclosed, unquoted) =
            all_passed (not cited) (not claimed)
              (any (discloses is_space fold text) (protected_statements c))
              (any (λ marker. occurs marker text) markers) _ _ _ _ h in
          record {
            memories = subset_sound o.cited_memory_ids _ (ground (arith, memories));
            claims = subset_sound (cited_claims o) (allowed_claims c) (ground (arith, claims));
            undisclosed = boundaries_sound c text undisclosed;
            unquoted = none_pass (λ marker. occurs marker text) markers unquoted;
          }

      let_through : IsInScope c o → validate_output is_space fold c o ≡ ok tt
      let_through s =
          rw
            (
              subset_complete o.cited_memory_ids _ s.memories,
              subset_complete (cited_claims o) (allowed_claims c) s.claims,
              boundaries_complete c text s.undisclosed,
              any_none (λ marker. occurs marker text) markers s.unquoted,
            )
            refl
