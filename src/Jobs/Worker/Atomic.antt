-- ===== src/Jobs/Worker/Atomic.antt =====
-- The story mutation of a job is committed with the job's completion, or not at all.
use rumor_mill_ai.Prelude.{
  ℕ, ◌+◌, ◌≡◌, refl, ap, ◌∙◌, String, true, Option, none, some, Result, Exc, ok, raise, inl, inr,
  ◌⊎◌, Bool-cases, lease_lost, value_error, lookup_error, key_error, type_error, provider_error,
  other,
}
use rumor_mill_ai.Json.{Json}
use rumor_mill_ai.Jobs.Model.{JobRecord}
use rumor_mill_ai.Jobs.Repo.{get, claim_due, complete}
use rumor_mill_ai.Jobs.Worker.{
  Worker, WorkerResult, Surroundings, Db, JobHandler, PreparedMutation, was_completed, prepare,
  commit_mutation, finish, settle, run_claimed, run_once,
}

module _ {S : Type 0} (w : Worker) (job : JobRecord) (completed_at : ℕ) where
  -- The mutation ran on `db`, the job was still leased afterwards, and both are committed.
  pub record IsCommitted (prepared : Result (PreparedMutation S)) (db : Db S)
      (r : Result WorkerResult) (final : Db S) : Type 0 where
    pub mutation : PreparedMutation S
    pub value : Json
    pub after : Db S
    pub prepared_ok : prepared ≡ ok mutation
    pub applied : mutation db ≡ ok (value, after)
    pub leased : (complete job.id w.worker_id completed_at value after.jobs).0 ≡ true
    pub jobs_final : final.jobs ≡ (complete job.id w.worker_id completed_at value after.jobs).1
    pub story_final : final.story ≡ after.story
    pub reported : r ≡ ok (record { job = some job; done = true })

  commit_mutation-atomic :
      (mutation : PreparedMutation S) (db : Db S) (m : Result (Json × Db S))
      → mutation db ≡ m
      → let (r, final) = commit_mutation w job completed_at db m in
        IsCommitted (ok mutation) db r final ⊎ (final ≡ db)
  unfolding commit_mutation
  commit_mutation-atomic mutation db (raise e) h = inr refl
  commit_mutation-atomic mutation db (ok (result, after)) h =
      elim (Bool-cases (complete job.id w.worker_id completed_at result after.jobs).0) [
        | inl leased ↦ rw leased (
            inl (record {
              mutation = mutation;
              value = result;
              after = after;
              prepared_ok = refl;
              applied = h;
              leased = leased;
              jobs_final = refl;
              story_final = refl;
              reported = refl;
            }))
        | inr lost ↦ rw lost (inr refl)
      ]

  finish-atomic :
      (prepared : Result (PreparedMutation S)) (db : Db S)
      → let (r, final) = finish w job completed_at prepared db in
        IsCommitted prepared db r final ⊎ (final ≡ db)
  unfolding finish
  finish-atomic (raise e) db = inr refl
  finish-atomic (ok mutation) db = elim (Bool-cases (was_completed (get job.id db.jobs))) [
    | inl already ↦ rw already (inr refl)
    | inr open_job ↦ rw open_job (commit_mutation-atomic mutation db (mutation db) refl)
  ]

module _ {S : Type 0} (truncate : String → String) (w : Worker) (env : Surroundings S) where
  -- A handled exception leaves the story as other transactions have left it.
  settle-raise :
      (job : JobRecord) (e : Exc) (db : Db S)
      → let final = (settle truncate w env job (raise e, db)).1 in
        (final.story ≡ db.story) ⊎ (final.story ≡ (env.before_fail db).story)
  unfolding settle
  settle-raise job lease_lost db = inl refl
  settle-raise job (value_error s) db = inr refl
  settle-raise job lookup_error db = inr refl
  settle-raise job key_error db = inr refl
  settle-raise job type_error db = inr refl
  settle-raise job (provider_error s) db = inr refl
  settle-raise job (other s) db = inr refl

  -- The database as the completing transaction meets it.
  abbrev pub met : Db S → Db S
  met db =
      env.during (record db {
        jobs = (claim_due w.worker_id env.now (env.now + w.lease_duration) db.jobs).1;
      })

  -- The story is as the worker found it, or as other transactions have left it.
  abbrev pub NotApplied : Db S → Db S → Type 0
  NotApplied db final =
      (final.story ≡ db.story)
      ⊎ (final.story ≡ (met db).story)
      ⊎ (final.story ≡ (env.before_fail (met db)).story)

  settle-atomic :
      (db : Db S) (job : JobRecord) (prepared : Result (PreparedMutation S))
      (r : Result WorkerResult × Db S)
      → IsCommitted w job env.completed_at prepared (met db) r.0 r.1 ⊎ (r.1 ≡ met db)
      → let (r', final) = settle truncate w env job r in
        IsCommitted w job env.completed_at prepared (met db) r' final ⊎ NotApplied db final
  settle-atomic db job prepared (ok r, d) (inl c) = unfold settle in inl c
  settle-atomic db job prepared (ok r, d) (inr same) =
      unfold settle in inr (inr (inl (ap (λ x. x.story) same)))
  settle-atomic db job prepared (raise e, d) (inl c) = absurd (cc (c.reported))
  settle-atomic db job prepared (raise e, d) (inr same) = elim (settle-raise job e d) [
    | inl kept ↦ inr (inr (inl (kept ∙ ap (λ x. x.story) same)))
    | inr kept ↦ inr (inr (inr (kept ∙ ap (λ x. (env.before_fail x).story) same)))
  ]

  -- One run of the worker: either the prepared mutation is applied to the database that the
  -- completing transaction meets, the job is completed by the holder of its lease in the same
  -- commit, and the run reports it; or no part of the mutation reaches the story.
  pub run_once-atomic :
      (handlers : String → Option (JobHandler S)) (db : Db S)
      → let (r, final) = run_once truncate handlers w env db in
        ((job : JobRecord) × IsCommitted w job env.completed_at
            (prepare (handlers job.kind) job)
            (met db)
            r
            final)
        ⊎ NotApplied db final
  unfolding run_once
  run_once-atomic handlers db =
      by_claim (claim_due w.worker_id env.now (env.now + w.lease_duration) db.jobs).0
    where
      claimed_db : Db S
      claimed_db = record db {
        jobs = (claim_due w.worker_id env.now (env.now + w.lease_duration) db.jobs).1;
      }

      by_claim :
          (o : Option JobRecord)
          → let (r, final) = run_claimed truncate handlers w env o claimed_db in
            ((job : JobRecord) × IsCommitted w job env.completed_at
                (prepare (handlers job.kind) job)
                (met db)
                r
                final)
            ⊎ NotApplied db final
      by_claim none = inr (inl refl)
      by_claim (some job) =
          let prepared = prepare (handlers job.kind) job in
          elim (settle-atomic db job prepared (finish w job env.completed_at prepared (met db))
            (finish-atomic w job env.completed_at prepared (met db))) [
              | inl c ↦ inl (job, c)
              | inr kept ↦ inr kept
            ]
