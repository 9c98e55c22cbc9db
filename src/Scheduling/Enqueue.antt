-- ===== src/Scheduling/Enqueue.antt =====
-- What the loop over due work adds to the jobs table.
use rumor_mill_ai.Prelude.{
  ℕ, suc, ◌+◌, ◌<◌, ◌≤◌, ◌≡◌, refl, ap, sym, ◌∙◌, subst, String, Bool, true, false, ◌&&◌, ◌||◌,
  List, [], ◌∷◌, ◌++◌, append-nil, append_assoc, ltb, leb, if◌then◌else◌, min, length,
  length-append, Result, ok, raise, ◌>>=◌, arith, All, All-append, any, Bool-cases, inl, inr,
  eq_iff,
}
use rumor_mill_ai.Floats.{Floats}
use rumor_mill_ai.Jobs.Model.{JobModel, JobStatus}
use rumor_mill_ai.Jobs.Repo.{Table, add_once, new_row, has_key}
use rumor_mill_ai.Scheduling.Runs.{RunRecord, is_wall}
use rumor_mill_ai.Scheduling.Advance.{
  ScheduledWork, Supplies, job_of, enqueue, count_added, ticks_due, wall_ticks,
}

module _ (F : Floats) where
  -- How far one call may move the clock: as far as it is told to, or, on the wall clock, as far
  -- as the elapsed time is due and at most `max_catch_up_ticks`; the flag says that this limit
  -- cut the ticks short. No other clock moves by itself.
  pub ticks_due_bounds :
      (run : RunRecord (F.Carrier)) (now anchor manual_ticks : ℕ) {ticks : ℕ} {limited : Bool}
      → ticks_due F run now anchor manual_ticks ≡ ok (ticks, limited)
      → (0 < manual_ticks → (ticks ≡ manual_ticks) × (limited ≡ false))
        × (manual_ticks ≡ 0 → is_wall run.clock_mode ≡ false → ticks ≡ 0)
        × (manual_ticks ≡ 0
            → is_wall run.clock_mode ≡ true
            → (ticks ≡ min (wall_ticks F run now anchor) run.max_catch_up_ticks)
              × (limited ≡ ltb ticks (wall_ticks F run now anchor)))
  unfolding ticks_due
  ticks_due_bounds run now anchor manual_ticks h = ground arith

-- A row that an advance over the interval from `previous` to `target` has added.
pub record IsDueRow (run_id previous target : ℕ) (m : JobModel) : Type 0 where
  pub of_run : m.run_id ≡ run_id
  pub after : previous < m.scheduled_at
  pub through : m.scheduled_at ≤ target
  pub waiting : m.status ≡ JobStatus.pending
  pub at_once : m.available_at ≡ m.scheduled_at

abbrev pub HasWork : Supplies → ℕ → Table → ScheduledWork → Type 0
HasWork sup run_id t work = any (has_key (sup.run_key run_id work.key)) t ≡ true

any-append :
    (k : String) (t u : Table) → any (has_key k) (t ++ u) ≡ (any (has_key k) t || any (has_key k) u)
any-append k [] u = refl
any-append k (x ∷ t) u = ground (arith, any-append k t u)

module _ (sup : Supplies) (run_id previous target : ℕ) where
  -- What the loop has done: it appended `added`, rows of the interval, and every unit of work
  -- has a job.
  pub record IsEnqueued (works : List ScheduledWork) (t : Table) (k : ℕ) (t' : Table) : Type 0 where
    pub added : Table
    pub appended : t' ≡ t ++ added
    pub counted : length added ≡ k
    pub due : All (IsDueRow run_id previous target) added
    pub present : All (HasWork sup run_id t') works
    pub inside : All (λ work. (previous < work.scheduled_at) × (work.scheduled_at ≤ target)) works

  -- One unit of work: a row is appended, or its key was there.
  add_work :
      (n : ℕ) (work : ScheduledWork) (t : Table)
      → previous < work.scheduled_at
      → work.scheduled_at ≤ target
      → let (new, t') = add_once (job_of sup run_id n work) sup.created_at t in
        IsEnqueued (work ∷ []) t (if new then 1 else 0) t'
  unfolding add_once job_of
  add_work n work t later early =
      let key = sup.run_key run_id work.key in
      elim (Bool-cases (any (has_key key) t)) [
        | inl old ↦ rw old (record {
          added = [];
          appended = sym (append-nil t);
          counted = refl;
          due = tt;
          present = (old, tt);
          inside = ((later, early), tt);
        })
        | inr absent ↦ rw absent (record {
          added = new_row (job_of sup run_id n work) sup.created_at ∷ [];
          appended = refl;
          counted = refl;
          due = (unfold new_row in ground arith, tt);
          present = (any-append key t _ ∙ unfold new_row in ground (arith, eq_iff key key), tt);
          inside = ((later, early), tt);
        })
      ]

  then_work :
      (works : List ScheduledWork) (work : ScheduledWork) (t t₁ t' : Table) (j k : ℕ)
      → IsEnqueued (work ∷ []) t j t₁
      → IsEnqueued works t₁ k t'
      → IsEnqueued (work ∷ works) t (j + k) t'
  then_work works work t t₁ t' j k a b = record {
    added = a.added ++ b.added;
    appended = b.appended ∙ ap (λ l. l ++ b.added) a.appended ∙ append_assoc t a.added b.added;
    counted = omega (arith, length-append {0} a.added b.added, a.counted, b.counted);
    due = All-append (IsDueRow run_id previous target) a.added b.added a.due b.due;
    present = (
      ap (any (has_key (sup.run_key run_id work.key))) b.appended
          ∙ any-append (sup.run_key run_id work.key) t₁ b.added
          ∙ ground (arith, a.present.0),
      b.present,
    );
    inside = (a.inside.0, b.inside);
  }

  count_added-eq-ok :
      (new : Bool) (rest : Result (ℕ × Table)) {k : ℕ} {t' : Table}
      → (rest >>= count_added new) ≡ ok (k, t')
      → (k₁ : ℕ) × (rest ≡ ok (k₁, t')) × (k ≡ (if new then 1 else 0) + k₁)
  count_added-eq-ok new (raise e) h = cc
  count_added-eq-ok true (ok (k₁, t')) h = (k₁, ground arith, ground arith)
  count_added-eq-ok false (ok (k₁, t')) h = (k₁, ground arith, ground arith)

  -- A loop that ends well has found its first unit of work inside the interval.
  enqueue-eq-ok :
      (n : ℕ) (work : ScheduledWork) (works : List ScheduledWork) (t : Table) {k : ℕ} {t' : Table}
      → enqueue sup run_id previous target n (work ∷ works) t ≡ ok (k, t')
      → let (new, t₁) = add_once (job_of sup run_id n work) sup.created_at t in
        (previous < work.scheduled_at)
        × (work.scheduled_at ≤ target)
        × ((k₁ : ℕ) × (enqueue sup run_id previous target (suc n) works t₁ ≡ ok (k₁, t'))
            × (k ≡ (if new then 1 else 0) + k₁))
  unfolding enqueue
  enqueue-eq-ok n work works t h =
      elim (Bool-cases (ltb previous work.scheduled_at && leb work.scheduled_at target)) [
        | inl fits ↦ (ground arith, ground arith, count_added-eq-ok _ _ (rw fits at h))
        | inr outside ↦ absurd (cc (rw outside at h))
      ]

  -- A loop over due work that ends well has appended as many rows as it counts, each a pending
  -- job of the run scheduled after `previous` and up to `target`; all the work lies in this
  -- interval, and each unit of it has a job with its key.
  pub enqueue_lem :
      (n : ℕ) (works : List ScheduledWork) (t : Table) {k : ℕ} {t' : Table}
      → enqueue sup run_id previous target n works t ≡ ok (k, t')
      → IsEnqueued works t k t'
  enqueue_lem n [] t h =
      unfold enqueue in
      record {
        added = [];
        appended = ground (arith, append-nil t);
        counted = ground arith;
        due = tt;
        present = tt;
        inside = tt;
      }
  enqueue_lem n (work ∷ works) t {k} {t'} h =
      let (later, early, rest) = enqueue-eq-ok n work works t h in
      subst (λ c. IsEnqueued (work ∷ works) t c t') (sym (rest.2))
        (then_work works work t _ t' _ rest.0 (add_work n work t later early) (
          enqueue_lem (suc n) works (add_once (job_of sup run_id n work) sup.created_at t).1
            (rest.1)))

  -- Work that lies inside the interval and has its jobs adds nothing.
  enqueue-present :
      (n : ℕ) (works : List ScheduledWork) (t : Table)
      → All (λ work. (previous < work.scheduled_at) × (work.scheduled_at ≤ target)) works
      → All (HasWork sup run_id t) works
      → enqueue sup run_id previous target n works t ≡ ok (0, t)
  unfolding enqueue add_once
  enqueue-present n [] t inside present = refl
  enqueue-present n (work ∷ works) t inside present =
      let fits : (ltb previous work.scheduled_at && leb work.scheduled_at target) ≡ true =
        ground (arith, inside.0) in
      rw (fits, present.0, enqueue-present (suc n) works t inside.1 present.1)

  -- Enqueueing the same work again, under whatever new identifiers, adds nothing.
  pub enqueue-again :
      (n p : ℕ) (works : List ScheduledWork) (t : Table) {k : ℕ} {t' : Table}
      → enqueue sup run_id previous target n works t ≡ ok (k, t')
      → enqueue sup run_id previous target p works t' ≡ ok (0, t')
  enqueue-again n p works t {k} {t'} h =
      let done = enqueue_lem n works t h in enqueue-present p works t' done.inside done.present

  -- Work that lies inside the interval is taken.
  pub enqueue-total :
      (n : ℕ) (works : List ScheduledWork) (t : Table)
      → All (λ work. (previous < work.scheduled_at) × (work.scheduled_at ≤ target)) works
      → (k : ℕ) × (t' : Table) × (enqueue sup run_id previous target n works t ≡ ok (k, t'))
  unfolding enqueue
  enqueue-total n [] t inside = (0, t, refl)
  enqueue-total n (work ∷ works) t inside =
      let fits : (ltb previous work.scheduled_at && leb work.scheduled_at target) ≡ true =
        ground (arith, inside.0) in
      let (new, t₁) = add_once (job_of sup run_id n work) sup.created_at t in
      let (k, t', rest) = enqueue-total (suc n) works t₁ inside.1 in rw (fits, rest) (_, t', refl)
