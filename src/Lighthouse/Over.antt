-- ===== src/Lighthouse/Over.antt =====
-- A run that is over stays over.
use rumor_mill_ai.Prelude.{
  ℕ, ◌≤◌, ◌≡◌, String, true, List, [], ◌∷◌, ◌++◌, ok, ◌>>=◌, arith, All, All-of_append, ap, ◌∙◌,
  leb→le, sym, inl, inr, subst, all, map, some,
}
use rumor_mill_ai.Prelude.Order.{sort_by}
use rumor_mill_ai.Json.{Json}
use rumor_mill_ai.Scheduling.Runs.{RunRecord}
use rumor_mill_ai.Scheduling.Advance.{ScheduledWork, Db}
use rumor_mill_ai.Worlds.Records.{WorldRecord}
use rumor_mill_ai.Lighthouse.Reading.{Formats, collect, as_int, is_number, number}
use rumor_mill_ai.Lighthouse.Days.{
  has_numbered_days, is_numbered, ints-number, require-get_list, routine_deadline-eq-ok,
}
use rumor_mill_ai.Lighthouse.Collect.{
  collect-nil, collect-nil_where, work_of-eq-ok, deadlines_of-eq-ok, routine_work-eq-ok,
  due_of-eq-ok, exhausted_of-eq-ok,
}
use rumor_mill_ai.Lighthouse.Source.{
  beat_work, routine_day, routine_work, work_of, due_work, exhausted, beat_deadline,
  routine_deadline, all_past, maximum, on_day, deadlines_of, earlier, definition_of,
}

-- Deadlines that have passed.
abbrev Past : ℕ → List ℕ → Type 0
Past at deadlines = All (λ d. d ≤ at) deadlines

module _ (fmt : Formats) where
  maximum-Past : (at : ℕ) (ns : List ℕ) → maximum fmt ns ≤ at → Past at ns
  maximum-Past at [] h = tt
  maximum-Past at (n ∷ ns) h = (omega arith, maximum-Past at ns (omega arith))

  beat_work-over :
      (started_at after through at : ℕ) (completed : List String)
      → at ≤ after
      → (beat : Json) (deadlines : List ℕ) (new : List ScheduledWork)
      → beat_deadline fmt started_at beat ≡ ok deadlines
      → Past at deadlines
      → beat_work fmt started_at after through completed beat ≡ ok new
      → new ≡ []
  unfolding beat_work beat_deadline
  beat_work-over started_at after through at completed late beat deadlines new d past h =
      ground arith

  -- An instant of a routine's day that has passed.
  abbrev DayPast : (started_at at offset : ℕ) → ℕ → Type 0
  DayPast started_at at offset n = on_day started_at n offset ≤ at

  days-DayPast :
      (started_at at offset : ℕ) (ns : List ℕ)
      → on_day started_at (maximum fmt ns) offset ≤ at
      → All (DayPast started_at at offset) ns
  days-DayPast started_at at offset [] h = tt
  days-DayPast started_at at offset (n ∷ ns) h =
      (omega arith, days-DayPast started_at at offset ns (omega arith))

  routine_day-over :
      (started_at after through at offset : ℕ) (routine : Json)
      → at ≤ after
      → (day : Json) (ns : List ℕ) (new : List ScheduledWork)
      → (as_int fmt day >>= λ n. ok (n ∷ [])) ≡ ok ns
      → All (DayPast started_at at offset) ns
      → routine_day fmt started_at after through offset routine day ≡ ok new
      → new ≡ []
  unfolding routine_day
  routine_day-over started_at after through at offset routine late day ns new read past h =
      ground arith

  routine_work-over :
      (started_at after through at : ℕ)
      → at ≤ after
      → (routine : Json) (deadlines : List ℕ) (new : List ScheduledWork)
      → has_numbered_days routine ≡ true
      → routine_deadline fmt started_at routine ≡ ok deadlines
      → Past at deadlines
      → routine_work fmt started_at after through routine ≡ ok new
      → new ≡ []
  routine_work-over started_at after through at late routine deadlines new numbered d past h =
      let (offset, days, offset_read, days_read, done) =
        routine_work-eq-ok fmt started_at after through routine h in
      let numbers : all is_number days ≡ true =
        rw (has_numbered_days, require-get_list fmt "days" routine days_read) at numbered in
      elim (routine_deadline-eq-ok fmt started_at routine d days_read offset_read numbers) [
        | inl no_days ↦ ground (arith, rw no_days at done)
        | inr last ↦
            let passed : All (DayPast started_at at offset) (map number days) =
              days-DayPast started_at at offset (map number days) ((rw last at past).0) in
            collect-nil (DayPast started_at at offset) _ _
              (routine_day-over started_at after through at offset routine late) days
              (ints-number fmt days numbers) passed done
      ]

  work_of-over :
      (started_at after through at : ℕ) (completed : List String) (definition : Json)
      {deadlines : List ℕ} {works : List ScheduledWork}
      → at ≤ after
      → is_numbered (some definition) ≡ true
      → deadlines_of fmt started_at definition ≡ ok deadlines
      → Past at deadlines
      → work_of fmt started_at after through completed definition ≡ ok works
      → works ≡ []
  unfolding sort_by
  work_of-over started_at after through at completed definition late numbered d past h =
      let (bs, first, rs, rest, bs_read, first_done, rs_read, rest_done, all) =
        deadlines_of-eq-ok fmt started_at definition d in
      let (bs', work, rs', more, bs'_read, work_done, rs'_read, more_done, sorted) =
        work_of-eq-ok fmt started_at after through completed definition h in
      let split = All-of_append (λ d. d ≤ at) first rest (subst (Past at) (sym all) past) in
      let same_beats : bs ≡ bs' = ground (arith, bs_read, bs'_read) in
      let same_routines : rs ≡ rs' = ground (arith, rs_read, rs'_read) in
      let no_beats : work ≡ [] =
        collect-nil (λ d. d ≤ at) _ _ (beat_work-over started_at after through at completed late)
          bs'
          (subst (λ l. collect (beat_deadline fmt started_at) l ≡ ok first) same_beats first_done)
          split.0 work_done in
      let no_routines : more ≡ [] =
        collect-nil_where has_numbered_days (λ d. d ≤ at) _ _
          (routine_work-over started_at after through at late) rs'
          (rw (is_numbered, rs'_read) at numbered)
          (subst (λ l. collect (routine_deadline fmt started_at) l ≡ ok rest) same_routines
            rest_done)
          split.1 more_done in
      sym sorted ∙ ap (sort_by earlier) (ap (λ l. l ++ more) no_beats ∙ no_routines)

  all_past-Past :
      (at : ℕ) (deadlines : List ℕ) → all_past fmt at deadlines ≡ true → Past at deadlines
  all_past-Past at [] h = tt
  all_past-Past at (d ∷ ds) h = maximum-Past at (d ∷ ds) (leb→le _ at h)

  module _ {Rate : Type 0} (worlds : List WorldRecord) where
    -- Once the source has said, at some instant, that a run is exhausted, it finds no work due
    -- after that instant: not for any later interval, and whatever jobs were completed since. The
    -- days of the world's routines are numbers, as those of an authored world are.
    pub exhausted-final :
        (db db' : Db Rate) (run : RunRecord Rate) (at after through : ℕ)
        {works : List ScheduledWork}
        → is_numbered (definition_of fmt worlds run) ≡ true
        → exhausted fmt worlds db run at ≡ ok true
        → at ≤ after
        → due_work fmt worlds db' run after through ≡ ok works
        → works ≡ []
    unfolding exhausted due_work
    exhausted-final db db' run at after through numbered over late h =
        let (definition, deadlines, found, read, past) =
          exhausted_of-eq-ok fmt run.started_at at (definition_of fmt worlds run) over in
        elim (due_of-eq-ok fmt run.id run.started_at after through db'.jobs
          (definition_of fmt worlds run) h) [
            | inl nothing ↦ nothing
            | inr (definition', completed, found', done) ↦
                let same : definition ≡ definition' = ground (arith, found, found') in
                work_of-over run.started_at after through at completed definition' late
                  (rw found' at numbered)
                  (subst (λ d. deadlines_of fmt run.started_at d ≡ ok deadlines) same read)
                  (all_past-Past at deadlines past) done
          ]
