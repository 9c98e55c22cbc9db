-- ===== src/Recaps/Closed.antt =====
-- The planner enqueues each day once, and no more days than its limit (Recaps/Plan).
use rumor_mill_ai.Prelude.{
  ℕ, ◌≤◌, ◌≡◌, refl, String, Bool, true, Option, none, some, List, [], ◌∷◌, ◌++◌, any, take, length,
  length-take, All, ltb, ok, arith, inl, inr, Bool-cases, eq_iff,
}
use rumor_mill_ai.Jobs.Model.{JobRecord}
use rumor_mill_ai.Jobs.Repo.{Table, add_once, new_row, has_key}
use rumor_mill_ai.Scheduling.Runs.{RunModel, RunRecord}
use rumor_mill_ai.Scheduling.Runs as Runs
use rumor_mill_ai.Worlds.Records.{WorldRecord}
use rumor_mill_ai.Worlds.Records as Worlds
use rumor_mill_ai.Scenes.Store.{ArtifactModel}
use rumor_mill_ai.Recaps.Plan.{
  is_lighthouse, eligible, recap_job, add_jobs, enqueue_for, enqueue_missing,
}

any-snoc :
    {A : Type 0} (p : A → Bool) (t : List A) (x : A) → any p t ≡ true → any p (t ++ x ∷ []) ≡ true
any-snoc p [] x h = ground arith
any-snoc p (y ∷ t) x h = ground (arith, any-snoc p t x)

any-last :
    {A : Type 0} (p : A → Bool) (t : List A) (x : A) → p x ≡ true → any p (t ++ x ∷ []) ≡ true
any-last p [] x h = ground arith
any-last p (y ∷ t) x h = ground (arith, any-last p t x h)

length-take_le : {A : Type 0} (n : ℕ) (xs : List A) → length (take n xs) ≤ n
length-take_le n xs = omega (arith, length-take n xs)

eligible_le :
    {Rate : Type 0} (run : RunRecord Rate) (limit : ℕ) (artifacts : List ArtifactModel)
    → length (eligible run limit artifacts) ≤ limit
unfolding eligible
eligible_le run limit artifacts = length-take_le limit _

module _ (isoformat : ℕ → String) (recap_key : (run_id story_date : ℕ) → String)
    (recap_job_id : (run_id story_date : ℕ) → ℕ) (run_id : ℕ) where
  -- The table has a job for the date.
  abbrev Has : Table → ℕ → Type 0
  Has t date = any (has_key (recap_key run_id date)) t ≡ true

  module _ (now created_at : ℕ) where
    abbrev job : ℕ → JobRecord
    job date = recap_job isoformat recap_key recap_job_id run_id now date

    add-Has : (t : Table) (d date : ℕ) → Has t d → Has (add_once (job date) created_at t).1 d
    unfolding add_once
    add-Has t d date h =
        ground
          (arith, h, any-snoc (has_key (recap_key run_id d)) t (new_row (job date) created_at) h)

    add-own : (t : Table) (date : ℕ) → Has (add_once (job date) created_at t).1 date
    unfolding add_once recap_job new_row
    add-own t date =
        let own_key : has_key (recap_key run_id date) (new_row (job date) created_at) ≡ true =
          (eq_iff (recap_key run_id date) (recap_key run_id date)).1 refl in
        elim (Bool-cases (any (has_key (recap_key run_id date)) t)) [
          | inl h ↦ ground (arith, h)
          | inr h ↦ ground (
            arith,
            h,
            any-last (has_key (recap_key run_id date)) t (new_row (job date) created_at) own_key,
          )
        ]

    add_jobs-Has :
        (dates : List ℕ) (t : Table) (d : ℕ)
        → Has t d
        → Has (add_jobs isoformat recap_key recap_job_id run_id now created_at dates t).1 d
    unfolding add_jobs
    add_jobs-Has [] t d h = h
    add_jobs-Has (date ∷ dates) t d h =
        add_jobs-Has dates (add_once (job date) created_at t).1 d (add-Has t d date h)

    add_jobs-All :
        (dates : List ℕ) (t : Table)
        → All
            (Has (add_jobs isoformat recap_key recap_job_id run_id now created_at dates t).1)
            dates
    unfolding add_jobs
    add_jobs-All [] t = tt
    add_jobs-All (date ∷ dates) t = (
      add_jobs-Has dates (add_once (job date) created_at t).1 date (add-own t date),
      add_jobs-All dates (add_once (job date) created_at t).1,
    )

    add_jobs_le :
        (dates : List ℕ) (t : Table)
        → (add_jobs isoformat recap_key recap_job_id run_id now created_at dates t).0 ≤ length dates
    unfolding add_jobs
    add_jobs_le [] t = omega arith
    add_jobs_le (date ∷ dates) t =
        ground (arith, add_jobs_le dates (add_once (job date) created_at t).1)

    add_jobs-known :
        (dates : List ℕ) (t : Table)
        → All (Has t) dates
        → add_jobs isoformat recap_key recap_job_id run_id now created_at dates t ≡ (0, t)
    unfolding add_jobs add_once recap_job
    add_jobs-known [] t h = refl
    add_jobs-known (date ∷ dates) t h = rw (h.0, add_jobs-known dates t h.1) refl

module _ (isoformat : ℕ → String) (recap_key : (run_id story_date : ℕ) → String)
    (recap_job_id : (run_id story_date : ℕ) → ℕ) {Rate : Type 0} (worlds : List WorldRecord)
    (artifacts : List ArtifactModel) (now created_at later later_created limit : ℕ) where
  enqueue_for-again :
      (run : Option (RunRecord Rate)) (t : Table) {n : ℕ} {t' : Table}
      → enqueue_for isoformat recap_key recap_job_id worlds artifacts now created_at limit t run
        ≡ ok (n, t')
      → (n ≤ limit)
        × (enqueue_for isoformat recap_key recap_job_id worlds artifacts later later_created limit
              t' run
            ≡ ok (0, t'))
  enqueue_for-again none t h = cc
  enqueue_for-again (some run) t h =
      let dates = eligible run limit artifacts in
      let few = add_jobs_le isoformat recap_key recap_job_id run.id now created_at dates t in
      let short : length dates ≤ limit = eligible_le run limit artifacts in
      let known =
        add_jobs-known isoformat recap_key recap_job_id run.id later later_created dates
          (add_jobs isoformat recap_key recap_job_id run.id now created_at dates t).1
          (add_jobs-All isoformat recap_key recap_job_id run.id now created_at dates t) in
      elim (Bool-cases (is_lighthouse (Worlds.get run.world_id worlds))) [
        | inl staged ↦ ground (arith, h, staged, few, short, known)
        | inr elsewhere ↦ ground (arith, h, elsewhere)
      ]

  -- A planner that returns for a run has added no more jobs than its limit; and as
  -- long as the run, the worlds and the artifacts stay as they are, a further call with that limit,
  -- at any instant, adds no job and leaves the table as it is.
  pub enqueue_missing-again :
      (runs : List (RunModel Rate)) (run_id : ℕ) (t : Table) {n : ℕ} {t' : Table}
      → enqueue_missing isoformat recap_key recap_job_id worlds runs artifacts run_id now created_at
          limit t
        ≡ ok (n, t')
      → (n ≤ limit)
        × (enqueue_missing isoformat recap_key recap_job_id worlds runs artifacts run_id later
              later_created limit t'
            ≡ ok (0, t'))
  unfolding enqueue_missing
  enqueue_missing-again runs run_id t h = elim (Bool-cases (ltb limit 1)) [
    | inl nothing ↦ ground (arith, h, nothing)
    | inr some_days ↦
        ground (arith, some_days, enqueue_for-again (Runs.get run_id runs) t (rw some_days at h))
  ]
