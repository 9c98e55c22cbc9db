-- ===== src/Scheduling/Transaction.antt =====
-- An advance as one transaction: what it has done when it returns, and that it does nothing
-- when it raises.
use rumor_mill_ai.Prelude.{
  ℕ, ◌+◌, ◌*◌, ◌≤◌, ◌≡◌, refl, ap, sym, ◌∙◌, subst, some, ◌==◌, if◌then◌else◌, Result, Exc, ok,
  raise, >>=-eq-ok, arith, Bool-cases, inl, inr, ◌⊎◌, find_first_sound,
}
use rumor_mill_ai.Prelude.Int.{pos}
use rumor_mill_ai.Floats.{Floats}
use rumor_mill_ai.Scheduling.Runs.{RunModel, find_row, has_id, get, to_record}
use rumor_mill_ai.Scheduling.Advance.{
  Supplies, WorkSource, Db, AdvanceResult, Reading, second, ticks_due, move_clock, after_ticks,
  after_move, report, end_run, advance_run, advance, transact,
}
use rumor_mill_ai.Scheduling.Clock.{IsMoved, ticked-IsMoved, end_run-IsMoved}

module _ (F : Floats) (source : WorkSource (F.Carrier)) (sup : Supplies) where
  open F use {Carrier}

  -- What a successful advance of the run with row `m` has done.
  pub record IsAdvanced (m : RunModel Carrier) (now manual_ticks : ℕ) (db : Db Carrier)
      (r : AdvanceResult) (final : Db Carrier) : Type 0 where
    pub from : r.previous_time ≡ m.simulation_time
    pub to : r.simulation_time ≡ m.simulation_time + r.ticks * m.tick_seconds * second
    pub due :
        ticks_due F (to_record m) now m.wall_time_anchor manual_ticks
        ≡ ok (r.ticks, r.catch_up_limited)
    pub effect : IsMoved F source sup m r.simulation_time r.jobs_enqueued db final

  run-IsAdvanced :
      (m : RunModel Carrier) (now manual_ticks : ℕ) (db : Db Carrier) {r : AdvanceResult}
      {final : Db Carrier}
      → find_row m.id db.runs ≡ some m
      → advance_run F source sup (to_record m) now manual_ticks db ≡ ok (r, final)
      → IsAdvanced m now manual_ticks db r final
  unfolding advance_run
  run-IsAdvanced m now manual_ticks db {r} {final} found h =
      let run = to_record m in
      let ((ticks, limited), ticked, rest) =
        >>=-eq-ok (ticks_due F run now m.wall_time_anchor manual_ticks)
          (after_ticks F source sup run m.simulation_time m.wall_time_anchor db) h in
      let target = m.simulation_time + ticks * m.tick_seconds * second in
      let ((enqueued, moved), clocked, ended) =
        >>=-eq-ok
          (if ticks == 0
            then ok (0, db)
            else move_clock F source sup run m.simulation_time m.wall_time_anchor ticks target db)
          (after_move F source sup run m.simulation_time target ticks limited db) rest in
      let (last, closed, reported) =
        >>=-eq-ok (end_run F source sup run target db moved)
          (report F source sup m.simulation_time target ticks limited enqueued) ended in
      let result : AdvanceResult = record {
        previous_time = m.simulation_time;
        simulation_time = target;
        ticks = ticks;
        jobs_enqueued = enqueued;
        catch_up_limited = limited;
      } in
      let pair : AdvanceResult × Db Carrier = (result, last) in
      let same : pair ≡ (r, final) = cc reported in
      subst (λ p. IsAdvanced m now manual_ticks db p.0 p.1) same
        (record {
          from = refl;
          to = refl;
          due = ticked;
          effect =
              end_run-IsMoved F source sup m target enqueued db db moved
                (ticked-IsMoved F source sup m ticks db found clocked) closed;
        })

  -- An advance that raises leaves the database as it was. One that returns has moved the clock
  -- of the run from where it stood by whole ticks, exactly as many as were due, and has
  -- appended as many jobs as it reports, each of the run and inside the interval.
  pub advance_lem :
      (run_id manual_ticks : ℕ) (reading : Reading) (db : Db Carrier) (m : RunModel Carrier)
      → find_row run_id db.runs ≡ some m
      → let (o, final) = advance F source sup run_id (pos manual_ticks) reading db in
        ((e : Exc) × (o ≡ raise e) × (final ≡ db))
        ⊎ ((r : AdvanceResult) × (o ≡ ok r) × IsAdvanced m reading.instant manual_ticks db r final)
  unfolding advance get
  advance_lem run_id manual_ticks reading db m found = elim (Bool-cases reading.aware) [
    | inr naive ↦ rw naive (inl (_, refl, refl))
    | inl aware ↦
        rw (aware, found)
          (by_result (advance_run F source sup (to_record m) reading.instant manual_ticks db) refl)
  ]
    where
      own : find_row m.id db.runs ≡ some m
      own =
          let one : m.id ≡ run_id =
            ground (arith, find_first_sound (has_id run_id) db.runs found) in
          ap (λ i. find_row i db.runs) one ∙ found

      by_result :
          (q : Result (AdvanceResult × Db Carrier))
          → advance_run F source sup (to_record m) reading.instant manual_ticks db ≡ q
          → let (o, final) = transact F source sup db q in
            ((e : Exc) × (o ≡ raise e) × (final ≡ db))
            ⊎ ((r : AdvanceResult) × (o ≡ ok r)
                × IsAdvanced m reading.instant manual_ticks db r final)
      by_result (raise e) h = inl (e, refl, refl)
      by_result (ok (r, final)) h =
          inr (r, refl, run-IsAdvanced m reading.instant manual_ticks db own h)

  pub advance-ok :
      (run_id manual_ticks : ℕ) (reading : Reading) (db final : Db Carrier) (m : RunModel Carrier)
      (r : AdvanceResult)
      → find_row run_id db.runs ≡ some m
      → advance F source sup run_id (pos manual_ticks) reading db ≡ (ok r, final)
      → IsAdvanced m reading.instant manual_ticks db r final
  advance-ok run_id manual_ticks reading db final m r found h =
      elim (subst
        (λ (p : Result AdvanceResult × Db Carrier).
          ((e : Exc) × (p.0 ≡ raise e) × (p.1 ≡ db))
          ⊎ ((r' : AdvanceResult) × (p.0 ≡ ok r')
              × IsAdvanced m reading.instant manual_ticks db r' p.1))
        h (advance_lem run_id manual_ticks reading db m found)) [
          | inl (e, failed, _) ↦ cc failed
          | inr (r', same, done) ↦
              let eq : r' ≡ r = cc same in
              subst (λ x. IsAdvanced m reading.instant manual_ticks db x final) eq done
        ]

  -- Two successive advances meet: the second starts at the instant at which the first ended, so
  -- that their intervals neither overlap nor leave a gap.
  pub advance-contiguous :
      (run_id j k : ℕ) (first later : Reading) (db db₁ db₂ : Db Carrier) (m : RunModel Carrier)
      (r₁ r₂ : AdvanceResult)
      → find_row run_id db.runs ≡ some m
      → advance F source sup run_id (pos j) first db ≡ (ok r₁, db₁)
      → advance F source sup run_id (pos k) later db₁ ≡ (ok r₂, db₂)
      → (r₂.previous_time ≡ r₁.simulation_time)
        × (r₁.previous_time ≤ r₁.simulation_time)
        × (r₁.simulation_time ≤ r₂.simulation_time)
  advance-contiguous run_id j k first later db db₁ db₂ m r₁ r₂ found h₁ h₂ =
      let a = advance-ok run_id j first db db₁ m r₁ found h₁ in
      let one : m.id ≡ run_id = ground (arith, find_first_sound (has_id run_id) db.runs found) in
      let found' : find_row run_id db₁.runs ≡ some a.effect.row =
        ap (λ i. find_row i db₁.runs) (sym one) ∙ a.effect.found in
      let b = advance-ok run_id k later db₁ db₂ a.effect.row r₂ found' h₂ in
      (b.from ∙ a.effect.time, omega (arith, a.from, a.to), omega (arith, b.to, a.effect.time))
