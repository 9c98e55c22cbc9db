-- ===== src/Worlds/Resolve.antt =====
-- What follows where a helper of the reference checks raises no issue (Worlds/References).
use rumor_mill_ai.Prelude.{
  ℕ, suc, ◌≡◌, refl, String, Bool, true, false, Option, none, some, List, [], ◌∷◌, ◌++◌, contains,
  unique, arith, All,
}
use rumor_mill_ai.Worlds.References.{
  ReferenceIssue, Place, Defect, check_reference, check_references_from, check_optional_reference,
  duplicates_from, issue_if, issues_from,
}

-- References that resolve.
abbrev pub Known : List ℕ → ℕ → Type 0
Known available value = contains value available ≡ true

abbrev pub AllKnown : List ℕ → List ℕ → Type 0
AllKnown available values = All (Known available) values

abbrev pub OptionKnown : List ℕ → Option ℕ → Type 0
OptionKnown available none = Unit
OptionKnown available (some value) = Known available value

module _ {A : Type 0} where
  append_nil_left : (xs ys : List A) → xs ++ ys ≡ [] → xs ≡ []
  append_nil_left [] ys h = refl
  append_nil_left (x ∷ xs) ys h = cc

  append_nil_right : (xs ys : List A) → xs ++ ys ≡ [] → ys ≡ []
  append_nil_right [] ys h = h
  append_nil_right (x ∷ xs) ys h = cc

  pub nil-split : (xs ys : List A) → xs ++ ys ≡ [] → (xs ≡ []) × (ys ≡ [])
  nil-split xs ys h = (append_nil_left xs ys h, append_nil_right xs ys h)

pub issues_from-nil {κ} :
    {A : Type 0} (Q : A → Type κ) (f : ℕ → A → List ReferenceIssue)
    → ((n : ℕ) (x : A) → f n x ≡ [] → Q x)
    → (n : ℕ) (xs : List A) → issues_from f n xs ≡ []
    → All Q xs
issues_from-nil Q f step n [] h = tt
issues_from-nil Q f step n (x ∷ xs) h =
    let (first, rest) = nil-split (f n x) (issues_from f (suc n) xs) h in
    (step n x first, issues_from-nil Q f step (suc n) xs rest)

pub known :
    (value : ℕ) (available : List ℕ) (place : Place) (kind : String)
    → check_reference value available place kind ≡ []
    → Known available value
known value available place kind h = ground arith

pub all_known :
    (n : ℕ) (values available : List ℕ) (place : Place) (kind : String)
    → check_references_from n values available place kind ≡ []
    → AllKnown available values
all_known n [] available place kind h = tt
all_known n (value ∷ values) available place kind h =
    let (first, rest) =
      nil-split (check_reference value available (record place { item = some n }) kind) _ h in
    (known value available _ kind first, all_known (suc n) values available place kind rest)

pub option_known :
    (value : Option ℕ) (available : List ℕ) (place : Place) (kind : String)
    → check_optional_reference value available place kind ≡ []
    → OptionKnown available value
option_known none available place kind h = tt
option_known (some value) available place kind h = known value available place kind h

pub not_raised :
    (b : Bool) (place : Place) (defect : Defect) → issue_if b place defect ≡ [] → b ≡ false
not_raised b place defect h = ground arith

apart_from :
    (id : ℕ) (seen ids : List ℕ)
    → All (λ i. contains i (id ∷ seen) ≡ false) ids
    → (contains id ids ≡ false) × All (λ i. contains i seen ≡ false) ids
apart_from id seen [] h = (refl, tt)
apart_from id seen (i ∷ ids) h =
    let (apart, rest) = apart_from id seen ids h.1 in
    (ground (arith, h.0), (ground (arith, h.0), rest))

pub no_duplicates :
    (n : ℕ) (seen ids : List ℕ) (records : String)
    → duplicates_from n seen ids records ≡ []
    → (unique ids ≡ true) × All (λ i. contains i seen ≡ false) ids
no_duplicates n seen [] records h = (refl, tt)
no_duplicates n seen (id ∷ ids) records h =
    let (first, rest) = nil-split (issue_if (contains id seen) _ _) _ h in
    let (distinct, apart) = no_duplicates (suc n) (id ∷ seen) ids records rest in
    let (here, there) = apart_from id seen ids apart in
    (ground (arith, here, distinct), (not_raised (contains id seen) _ _ first, there))
