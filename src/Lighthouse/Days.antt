-- ===== src/Lighthouse/Days.antt =====
-- The days of routines that are numbers: what `int` and `max` read of them (Lighthouse/Source).
use rumor_mill_ai.Prelude.{
  ℕ, ◌≡◌, refl, String, true, List, [], ◌∷◌, ok, ◌>>=◌, >>=-eq-ok, arith, ap, ◌∙◌, inl, inr, ◌⊎◌,
  subst, all, map, max, Bool, Bool-cases, ltb, Option, none, some, raise,
}
use rumor_mill_ai.Json.{Json, get}
use rumor_mill_ai.Lighthouse.Reading.{
  Formats, collect, as_int, routine_offset, elements, require, get_list, routines_of, is_number,
  number,
}
use rumor_mill_ai.Lighthouse.Source.{
  routine_deadline, maximum, on_day, last_of, greater, last_deadline,
}

-- The days of a routine, as far as they are there, are numbers, as the authored ones are.
abbrev pub has_numbered_days : Json → Bool
has_numbered_days routine = elim (get_list "days" routine) [
  | raise e ↦ true
  | ok days ↦ all is_number days
]

-- So are those of all routines of a definition.
abbrev pub is_numbered : Option Json → Bool
is_numbered none = true
is_numbered (some definition) = elim (routines_of definition) [
  | raise e ↦ true
  | ok routines ↦ all has_numbered_days routines
]

greater-number :
    (new best : Json)
    → is_number new ≡ true
    → is_number best ≡ true
    → greater new best ≡ ok (ltb (number best) (number new))
greater-number (Json.num m) (Json.num n) h k = refl
greater-number (Json.num m) (Json.bool b) h k = refl
greater-number (Json.bool a) (Json.num n) h k = refl
greater-number (Json.bool a) (Json.bool b) h k = refl
greater-number new best h k = ground arith

module _ (fmt : Formats) where
  as_int-number : (day : Json) → is_number day ≡ true → as_int fmt day ≡ ok (number day)
  as_int-number (Json.num n) h = refl
  as_int-number (Json.bool b) h = refl
  as_int-number Json.null h = cc h
  as_int-number (Json.str s) h = cc h
  as_int-number (Json.arr items) h = cc h
  as_int-number (Json.obj fields) h = cc h

  -- Of numbers the greatest value is read as the greatest number.
  last_of-number :
      (best : Json) (days : List Json)
      → is_number best ≡ true
      → all is_number days ≡ true
      → (last_of best days >>= as_int fmt) ≡ ok (max (number best) (maximum fmt (map number days)))
  unfolding last_of
  last_of-number best [] h numbers = as_int-number best h ∙ ap ok (omega arith)
  last_of-number best (day ∷ days) h numbers =
      rw (greater-number day best (ground arith) h)
        (elim (Bool-cases (ltb (number best) (number day))) [
          | inl later ↦ rw later (
              last_of-number day days (ground arith) (ground arith) ∙ ap ok (ground (arith, later)))
          | inr kept ↦
              rw kept (last_of-number best days h (ground arith) ∙ ap ok (ground (arith, kept)))
        ])

  -- What the loop over the days reads of numbers.
  pub ints-number :
      (days : List Json)
      → all is_number days ≡ true
      → collect (λ day. as_int fmt day >>= λ n. ok (n ∷ [])) days ≡ ok (map number days)
  ints-number [] h = refl
  ints-number (day ∷ days) h = ground (arith, as_int-number day, ints-number days)

  pub require-get_list :
      (key : String) (value : Json) {days : List Json}
      → (require key value >>= elements) ≡ ok days
      → get_list key value ≡ ok days
  require-get_list key value h = ground arith

  last_deadline-eq-ok :
      (started_at : ℕ) (routine : Json) (days : List Json) {deadlines : List ℕ} {offset : ℕ}
      → last_deadline fmt started_at routine days ≡ ok deadlines
      → routine_offset fmt (get "start_time" routine) ≡ ok offset
      → all is_number days ≡ true
      → (days ≡ []) ⊎ (deadlines ≡ on_day started_at (maximum fmt (map number days)) offset ∷ [])
  last_deadline-eq-ok started_at routine [] d offset_read numbers = inl refl
  last_deadline-eq-ok started_at routine (day ∷ days) {deadlines} {offset} d offset_read numbers =
      let last = last_of-number day days (ground arith) (ground arith) in
      inr (ground (arith, rw (offset_read, last) at d))

  -- The days that both loops read.
  pub routine_deadline-eq-ok :
      (started_at : ℕ) (routine : Json) {deadlines : List ℕ} {days : List Json} {offset : ℕ}
      → routine_deadline fmt started_at routine ≡ ok deadlines
      → (require "days" routine >>= elements) ≡ ok days
      → routine_offset fmt (get "start_time" routine) ≡ ok offset
      → all is_number days ≡ true
      → (days ≡ []) ⊎ (deadlines ≡ on_day started_at (maximum fmt (map number days)) offset ∷ [])
  unfolding routine_deadline
  routine_deadline-eq-ok started_at routine {deadlines} {days} d read offset_read numbers =
      let (days', read', last) =
        >>=-eq-ok (get_list "days" routine) (last_deadline fmt started_at routine) d in
      let same : days' ≡ days = ground (arith, read', require-get_list "days" routine read) in
      last_deadline-eq-ok started_at routine days
        (subst (λ l. last_deadline fmt started_at routine l ≡ ok deadlines) same last) offset_read
        numbers
