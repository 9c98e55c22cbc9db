-- ===== src/Lighthouse/Due.antt =====
-- Work that is due lies in the interval that the scheduler asks about.
use rumor_mill_ai.Prelude.{
  ℕ, ◌<◌, ◌≤◌, ◌≡◌, String, List, ◌++◌, ok, arith, All, All-append, All-weaken, subst, sym, inl,
  inr,
}
use rumor_mill_ai.Prelude.Order.{sort_by-All}
use rumor_mill_ai.Json.{Json}
use rumor_mill_ai.Scheduling.Runs.{RunRecord}
use rumor_mill_ai.Scheduling.Advance.{ScheduledWork, Db, Supplies, enqueue}
use rumor_mill_ai.Scheduling.Enqueue.{enqueue-total}
use rumor_mill_ai.Jobs.Repo.{Table}
use rumor_mill_ai.Worlds.Records.{WorldRecord}
use rumor_mill_ai.Lighthouse.Reading.{Formats}
use rumor_mill_ai.Lighthouse.Collect.{collect-All, work_of-eq-ok, due_of-eq-ok, routine_work-eq-ok}
use rumor_mill_ai.Lighthouse.Source.{
  beat_work, routine_day, routine_work, work_of, due_work, earlier, definition_of,
}

pub record IsWithin (after through : ℕ) (w : ScheduledWork) : Type 0 where
  pub later : after < w.scheduled_at
  pub by_end : w.scheduled_at ≤ through

module _ (fmt : Formats) where
  beat_work-IsWithin :
      (started_at after through : ℕ) (completed : List String) (beat : Json)
      (new : List ScheduledWork)
      → beat_work fmt started_at after through completed beat ≡ ok new
      → All (IsWithin after through) new
  unfolding beat_work
  beat_work-IsWithin started_at after through completed beat new h = ground arith

  routine_day-IsWithin :
      (started_at after through offset : ℕ) (routine day : Json) (new : List ScheduledWork)
      → routine_day fmt started_at after through offset routine day ≡ ok new
      → All (IsWithin after through) new
  unfolding routine_day
  routine_day-IsWithin started_at after through offset routine day new h = ground arith

  routine_work-IsWithin :
      (started_at after through : ℕ) (routine : Json) (new : List ScheduledWork)
      → routine_work fmt started_at after through routine ≡ ok new
      → All (IsWithin after through) new
  unfolding routine_work
  routine_work-IsWithin started_at after through routine new h =
      let (offset, days, _, _, collected) =
        routine_work-eq-ok fmt started_at after through routine h in
      collect-All (IsWithin after through) _
        (routine_day-IsWithin started_at after through offset routine) days collected

  work_of-IsWithin :
      (started_at after through : ℕ) (completed : List String) (definition : Json)
      {works : List ScheduledWork}
      → work_of fmt started_at after through completed definition ≡ ok works
      → All (IsWithin after through) works
  work_of-IsWithin started_at after through completed definition h =
      let (beats, work, routines, more, _, beats_done, _, routines_done, sorted) =
        work_of-eq-ok fmt started_at after through completed definition h in
      subst (All (IsWithin after through)) sorted (
        sort_by-All earlier (IsWithin after through) (work ++ more) (
          All-append (IsWithin after through) work more
            (collect-All (IsWithin after through) _
              (beat_work-IsWithin started_at after through completed) beats beats_done)
            (collect-All (IsWithin after through) _ (routine_work-IsWithin started_at after through)
              routines routines_done)))

  module _ {Rate : Type 0} (worlds : List WorldRecord) where
    -- Every unit of work that the source finds due after one instant and through another is
    -- scheduled after the one and not after the other.
    pub due_work-IsWithin :
        (db : Db Rate) (run : RunRecord Rate) (after through : ℕ) {works : List ScheduledWork}
        → due_work fmt worlds db run after through ≡ ok works
        → All (IsWithin after through) works
    unfolding due_work
    due_work-IsWithin db run after through h =
        elim (due_of-eq-ok fmt run.id run.started_at after through db.jobs
          (definition_of fmt worlds run) h) [
            | inl nothing ↦ subst (All (IsWithin after through)) (sym nothing) tt
            | inr (definition, completed, _, done) ↦
                work_of-IsWithin run.started_at after through completed definition done
          ]

    -- The scheduler takes whatever work the source finds due: its loop over the work never
    -- raises, whatever jobs there are.
    pub due_work-enqueue :
        (sup : Supplies) (db : Db Rate) (run : RunRecord Rate) (after through n : ℕ) (jobs : Table)
        {works : List ScheduledWork}
        → due_work fmt worlds db run after through ≡ ok works
        → (added : ℕ) × (jobs' : Table) × (enqueue sup run.id after through n works jobs
            ≡ ok (added, jobs'))
    due_work-enqueue sup db run after through n jobs {works} h =
        enqueue-total sup run.id after through n works jobs (
          All-weaken (IsWithin after through) _ (λ w inside. (inside.later, inside.by_end)) works
            (due_work-IsWithin db run after through h))
