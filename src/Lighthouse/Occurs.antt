-- ===== src/Lighthouse/Occurs.antt =====
-- What must be due is found due, and what is completed is not found again.
use mathlib.Core.List.Memᴰ.{head, append_right}
use rumor_mill_ai.Prelude.{
  ℕ, ◌<◌, ◌≤◌, ◌≡◌, refl, some, List, [], ◌∷◌, ◌++◌, ok, ◌>>=◌, arith, sym, subst,
}
use rumor_mill_ai.Prelude.Member.{Member, sort_by-Member}
use rumor_mill_ai.Json.{Json, get}
use rumor_mill_ai.Scheduling.Runs.{RunRecord}
use rumor_mill_ai.Scheduling.Advance.{ScheduledWork, Db}
use rumor_mill_ai.Worlds.Records.{WorldRecord}
use rumor_mill_ai.Lighthouse.Reading.{
  Formats, as_int, routine_offset, elements, require, routines_of,
}
use rumor_mill_ai.Lighthouse.Collect.{collect-Member, work_of-eq-ok, routine_work-eq-ok}
use rumor_mill_ai.Lighthouse.Source.{
  routine_day, routine_work, due_of, due_work, on_day, routine_unit, earlier, definition_of,
}

module _ (fmt : Formats) where
  routine_day-due :
      (started_at after through offset n : ℕ) (routine day : Json) {new : List ScheduledWork}
      → as_int fmt day ≡ ok n
      → after < on_day started_at n offset
      → on_day started_at n offset ≤ through
      → routine_day fmt started_at after through offset routine day ≡ ok new
      → (id : Json) × (get "id" routine ≡ some id)
        × (new ≡ routine_unit fmt routine id day (on_day started_at n offset) ∷ [])
  unfolding routine_day
  routine_day-due started_at after through offset n routine day number later by_end h = ground arith

  routine_work-due :
      (started_at after through offset n : ℕ) (routine day : Json) (days : List Json)
      (new : List ScheduledWork)
      → routine_offset fmt (get "start_time" routine) ≡ ok offset
      → (require "days" routine >>= elements) ≡ ok days
      → Member day days
      → as_int fmt day ≡ ok n
      → after < on_day started_at n offset
      → on_day started_at n offset ≤ through
      → routine_work fmt started_at after through routine ≡ ok new
      → (id : Json) × (get "id" routine ≡ some id)
        × Member (routine_unit fmt routine id day (on_day started_at n offset)) new
  routine_work-due started_at after through offset n routine day days new starts on_days day_member
        number later by_end h =
      let (offset', days', starts', days'_read, collected) =
        routine_work-eq-ok fmt started_at after through routine h in
      let same_offset : offset' ≡ offset = ground (arith, starts, starts') in
      let same_days : days ≡ days' = ground (arith, on_days, days'_read) in
      let (units, day_done, in_new) =
        collect-Member (routine_day fmt started_at after through offset' routine) days'
          (subst (Member day) same_days day_member) collected in
      let (id, id_read, one) =
        routine_day-due started_at after through offset n routine day number later by_end (
          subst (λ o. routine_day fmt started_at after through o routine day ≡ ok units) same_offset
            day_done) in
      (id, id_read, in_new _ (subst (Member _) (sym one) (head refl)))

  module _ {Rate : Type 0} (worlds : List WorldRecord) where
    -- No occurrence of a routine is missed: if a routine of the run's definition starts, on one of
    -- its days, after one instant and not after another, then the work that is due between them
    -- has a unit for it, at that start, with the routine's own fields as its payload.
    pub due_work_complete :
        (db : Db Rate) (run : RunRecord Rate) (after through offset n : ℕ)
        (definition routine day : Json) (routines days : List Json) (works : List ScheduledWork)
        → definition_of fmt worlds run ≡ some definition
        → routines_of definition ≡ ok routines
        → Member routine routines
        → routine_offset fmt (get "start_time" routine) ≡ ok offset
        → (require "days" routine >>= elements) ≡ ok days
        → Member day days
        → as_int fmt day ≡ ok n
        → after < on_day run.started_at n offset
        → on_day run.started_at n offset ≤ through
        → due_work fmt worlds db run after through ≡ ok works
        → (id : Json) × (get "id" routine ≡ some id)
          × Member (routine_unit fmt routine id day (on_day run.started_at n offset)) works
    unfolding due_work due_of
    due_work_complete db run after through offset n definition routine day routines days works world
          listed member starts on_days day_member number later by_end h =
        let (bs, work, rs, more, _, _, rs_read, more_done, sorted) =
          work_of-eq-ok fmt run.started_at after through _ definition (
            subst (λ w. due_of fmt run.id run.started_at after through db.jobs w ≡ ok works) world
              h) in
        let same : routines ≡ rs = ground (arith, listed, rs_read) in
        let (new, routine_done, in_more) =
          collect-Member (routine_work fmt run.started_at after through) rs
            (subst (Member routine) same member) more_done in
        let (id, id_read, unit_in_new) =
          routine_work-due run.started_at after through offset n routine day days new starts on_days
            day_member number later by_end routine_done in
        (
          id,
          id_read,
          subst (Member _) sorted
              (sort_by-Member earlier (work ++ more) (append_right work (in_more _ unit_in_new))),
        )
