-- ===== src/Lighthouse/Collect.antt =====
-- Loops that append a list for each item (`collect` in Lighthouse/Reading), and the loops behind a
-- list of due work or of deadlines.
use rumor_mill_ai.Prelude.{
  ◌≡◌, refl, ap, ◌∙◌, subst, ℕ, String, List, [], ◌∷◌, ◌++◌, Result, >>=-eq-ok, Option, none, some,
  ◌⊎◌, inl, inr, true, ok, ◌>>=◌, arith, All, All-append, All-of_append, sym, all, Bool,
}
use mathlib.Core.List.Memᴰ.{head, tail, append_left, append_right, not-nil}
use rumor_mill_ai.Prelude.Member.{Member}
use rumor_mill_ai.Prelude.Order.{sort_by}
use rumor_mill_ai.Json.{Json, get}
use rumor_mill_ai.Scheduling.Advance.{ScheduledWork}
use rumor_mill_ai.Jobs.Repo.{Table}
use rumor_mill_ai.Lighthouse.Reading.{
  Formats, collect, beats_of, routines_of, routine_offset, require, elements,
}
use rumor_mill_ai.Lighthouse.Source.{
  beat_work, routine_day, routine_work, work_of, earlier, beat_deadline, routine_deadline,
  deadlines_of, due_of, exhausted_of, all_past,
}

-- A loop that ends well: its first step and its rest did.
pub collect-eq-ok :
    {A B : Type 0} (f : A → Result (List B)) (x : A) (xs : List A) {ys : List B}
    → collect f (x ∷ xs) ≡ ok ys
    → (new rest : List B) × (f x ≡ ok new) × (collect f xs ≡ ok rest) × (new ++ rest ≡ ys)
collect-eq-ok f x xs h = ground arith

-- What each step appends has the property: so has what the loop returns.
pub collect-All {κ} :
    {A B : Type 0} (P : B → Type κ) (f : A → Result (List B))
    → ((x : A) (new : List B) → f x ≡ ok new → All P new)
    → (xs : List A) {ys : List B} → collect f xs ≡ ok ys
    → All P ys
collect-All P f step [] h = ground arith
collect-All P f step (x ∷ xs) h =
    let (new, rest, first, others, all) = collect-eq-ok f x xs h in
    subst (All P) all (All-append P new rest (step x new first) (collect-All P f step xs others))

-- What a step appends is in what the loop returns.
pub collect-Member :
    {A B : Type 0} (f : A → Result (List B)) {x : A} (xs : List A) {ys : List B}
    → Member x xs
    → collect f xs ≡ ok ys
    → (new : List B) × (f x ≡ ok new) × ((w : B) → Member w new → Member w ys)
collect-Member f [] m h = absurd (not-nil m)
collect-Member f (z ∷ xs) (head e) h =
    let (new, rest, first, _, all) = collect-eq-ok f z xs h in
    (new, ap f e ∙ first, λ w k. subst (Member w) all (append_left rest k))
collect-Member f (z ∷ xs) (tail m) h =
    let (new, rest, _, others, all) = collect-eq-ok f z xs h in
    let (found, step, inside) = collect-Member f xs m others in
    (found, step, λ w k. subst (Member w) all (append_right new (inside w k)))

-- Two loops over the same items, all of which satisfy a test: if a step of the second appends
-- nothing where what the same step of the first appends has the property, the second loop returns
-- nothing.
pub collect-nil_where {κ} :
    {A B C : Type 0} (q : A → Bool) (P : B → Type κ) (f : A → Result (List B))
    (g : A → Result (List C))
    → ((x : A) (ds : List B) (new : List C)
        → q x ≡ true
        → f x ≡ ok ds
        → All P ds
        → g x ≡ ok new
        → new ≡ [])
    → (xs : List A) {ds : List B} {new : List C} → all q xs ≡ true
    → collect f xs ≡ ok ds
    → All P ds
    → collect g xs ≡ ok new
    → new ≡ []
collect-nil_where q P f g step [] t d past h = ground arith
collect-nil_where q P f g step (x ∷ xs) t d past h =
    let (d₁, ds, first_d, rest_d, all_d) = collect-eq-ok f x xs d in
    let (w₁, ws, first_w, rest_w, all_w) = collect-eq-ok g x xs h in
    let split = All-of_append P d₁ ds (subst (All P) (sym all_d) past) in
    let first_nil : w₁ ≡ [] = step x d₁ w₁ (ground arith) first_d split.0 first_w in
    let rest_nil : ws ≡ [] =
      collect-nil_where q P f g step xs (ground arith) rest_d split.1 rest_w in
    ground (arith, first_nil, rest_nil, all_w)

all-true : {A : Type 0} (xs : List A) → all (λ x. true) xs ≡ true
all-true [] = refl
all-true (x ∷ xs) = ground (arith, all-true xs)

pub collect-nil {κ} :
    {A B C : Type 0} (P : B → Type κ) (f : A → Result (List B)) (g : A → Result (List C))
    → ((x : A) (ds : List B) (new : List C) → f x ≡ ok ds → All P ds → g x ≡ ok new → new ≡ [])
    → (xs : List A) {ds : List B} {new : List C} → collect f xs ≡ ok ds
    → All P ds
    → collect g xs ≡ ok new
    → new ≡ []
collect-nil P f g step xs =
    collect-nil_where (λ x. true) P f g (λ x ds new t. step x ds new) xs (all-true xs)

module _ (fmt : Formats) where
  pub work_of-eq-ok :
      (started_at after through : ℕ) (completed : List String) (definition : Json)
      {works : List ScheduledWork}
      → work_of fmt started_at after through completed definition ≡ ok works
      → (beats : List Json) × (work : List ScheduledWork) × (routines : List Json) × (more : List
          ScheduledWork)
        × (beats_of definition ≡ ok beats)
        × (collect (beat_work fmt started_at after through completed) beats ≡ ok work)
        × (routines_of definition ≡ ok routines)
        × (collect (routine_work fmt started_at after through) routines ≡ ok more)
        × (sort_by earlier (work ++ more) ≡ works)
  unfolding work_of
  work_of-eq-ok started_at after through completed definition h = ground arith

  pub deadlines_of-eq-ok :
      (started_at : ℕ) (definition : Json) {deadlines : List ℕ}
      → deadlines_of fmt started_at definition ≡ ok deadlines
      → (beats : List Json) × (first : List ℕ) × (routines : List Json) × (rest : List ℕ)
        × (beats_of definition ≡ ok beats)
        × (collect (beat_deadline fmt started_at) beats ≡ ok first)
        × (routines_of definition ≡ ok routines)
        × (collect (routine_deadline fmt started_at) routines ≡ ok rest)
        × (first ++ rest ≡ deadlines)
  unfolding deadlines_of
  deadlines_of-eq-ok started_at definition h = ground arith

  pub routine_work-eq-ok :
      (started_at after through : ℕ) (routine : Json) {new : List ScheduledWork}
      → routine_work fmt started_at after through routine ≡ ok new
      → (offset : ℕ) × (days : List Json) × (routine_offset fmt (get "start_time" routine)
          ≡ ok offset)
        × ((require "days" routine >>= elements) ≡ ok days)
        × (collect (routine_day fmt started_at after through offset routine) days ≡ ok new)
  unfolding routine_work
  routine_work-eq-ok started_at after through routine h = ground arith

  pub due_of-eq-ok :
      (run_id started_at after through : ℕ) (jobs : Table) (world : Option Json)
      {works : List ScheduledWork}
      → due_of fmt run_id started_at after through jobs world ≡ ok works
      → (works ≡ [])
        ⊎ ((definition : Json) × (completed : List String) × (world ≡ some definition)
            × (work_of fmt started_at after through completed definition ≡ ok works))
  unfolding due_of
  due_of-eq-ok run_id started_at after through jobs none h = inl (ground arith)
  due_of-eq-ok run_id started_at after through jobs (some definition) h =
      inr (definition, _, refl, h)

  pub exhausted_of-eq-ok :
      (started_at at : ℕ) (world : Option Json)
      → exhausted_of fmt started_at at world ≡ ok true
      → (definition : Json) × (deadlines : List ℕ) × (world ≡ some definition)
        × (deadlines_of fmt started_at definition ≡ ok deadlines)
        × (all_past fmt at deadlines ≡ true)
  unfolding exhausted_of
  exhausted_of-eq-ok started_at at none h = absurd (ground arith)
  exhausted_of-eq-ok started_at at (some definition) h =
      let (deadlines, read, past) =
        >>=-eq-ok (deadlines_of fmt started_at definition)
          (λ deadlines. ok (all_past fmt at deadlines)) h in
      (definition, deadlines, refl, read, ground arith)
