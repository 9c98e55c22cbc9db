-- ===== src/Scheduling/Clock.antt =====
-- What an advance does to the simulation clock and the jobs.
use rumor_mill_ai.Prelude.{
  ℕ, zero, suc, ◌+◌, ◌*◌, ◌≡◌, refl, ap, sym, ◌∙◌, subst, Bool, true, false, ◌&&◌, some, List, [],
  ◌∷◌, ◌++◌, append-nil, ◌==◌, if◌then◌else◌, length, Result, ok, raise, ◌>>=◌, >>=-eq-ok, arith,
  All, Bool-cases, inl, inr, update_where,
}
use rumor_mill_ai.Floats.{Floats}
use rumor_mill_ai.Jobs.Repo.{Table}
use rumor_mill_ai.Scheduling.Runs.{
  RunModel, RunStatus, is_running, find_row, has_id, to_record, update_clock, mark_completed,
}
use rumor_mill_ai.Scheduling.Advance.{
  Supplies, WorkSource, Db, second, enqueue, move_clock, clock_moved, book, end_run,
}
use rumor_mill_ai.Scheduling.Enqueue.{IsDueRow, enqueue_lem}

module _ {Rate : Type 0} where
  find_row-update :
      (i : ℕ) (p : RunModel Rate → Bool) (f : RunModel Rate → RunModel Rate)
      → ((m : RunModel Rate) → (f m).id ≡ m.id)
      → (t : List (RunModel Rate)) {m : RunModel Rate} → find_row i t ≡ some m
      → find_row i (update_where p f t) ≡ some (if p m then f m else m)
  find_row-update i p f same [] h = cc
  find_row-update i p f same (x ∷ t) {m} h = elim (Bool-cases (has_id i x)) [
    | inl hit ↦ let e : x ≡ m = ground arith in rw (← e) (ground (arith, same x))
    | inr miss ↦ ground (arith, same x, find_row-update i p f same t {m = m} (ground arith))
  ]

module _ (F : Floats) (source : WorkSource (F.Carrier)) (sup : Supplies) where
  open F use {Carrier, div, of_ℕ, microseconds}

  -- The rows that the move of the clock has added, and the row of the run after it.
  pub record IsMoved (m : RunModel Carrier) (target k : ℕ) (db db' : Db Carrier) : Type 0 where
    pub row : RunModel Carrier
    pub found : find_row m.id db'.runs ≡ some row
    pub time : row.simulation_time ≡ target
    pub added : Table
    pub appended : db'.jobs ≡ db.jobs ++ added
    pub counted : length added ≡ k
    pub due : All (IsDueRow m.id m.simulation_time target) added

  stay-IsMoved :
      (m : RunModel Carrier) (db : Db Carrier)
      → find_row m.id db.runs ≡ some m
      → IsMoved m m.simulation_time 0 db db
  stay-IsMoved m db found = record {
    row = m;
    found = found;
    time = refl;
    added = [];
    appended = sym (append-nil db.jobs);
    counted = refl;
    due = tt;
  }

  move-IsMoved :
      (m : RunModel Carrier) (anchor ticks target : ℕ) (db : Db Carrier) {k : ℕ} {db' : Db Carrier}
      → find_row m.id db.runs ≡ some m
      → move_clock F source sup (to_record m) m.simulation_time anchor ticks target db ≡ ok (k, db')
      → IsMoved m target k db db'
  unfolding move_clock update_clock
  move-IsMoved m anchor ticks target db {k} {db'} found h =
      let run = to_record m in
      let (works, loaded, booked) =
        >>=-eq-ok (source.due_work db run m.simulation_time target)
          (book F source sup run m.simulation_time anchor ticks target db) h in
      let ((n, jobs), looped, last) =
        >>=-eq-ok (enqueue sup m.id m.simulation_time target 0 works db.jobs)
          (clock_moved F source sup run anchor ticks target db) booked in
      let queue = enqueue_lem sup m.id m.simulation_time target 0 works db.jobs looped in
      let consumed = microseconds (div (of_ℕ (ticks * m.tick_seconds)) m.clock_rate) in
      let at_clock : (RunModel Carrier → RunModel Carrier) =
        λ x. record x { simulation_time = target; wall_time_anchor = anchor + consumed } in
      let jobs_final : db'.jobs ≡ jobs = ground arith in
      let runs_final : db'.runs ≡ update_where (has_id m.id) at_clock db.runs = ground arith in
      record {
        row = at_clock m;
        found =
            ap (find_row m.id) runs_final
            ∙ find_row-update m.id (has_id m.id) at_clock (λ x. refl) db.runs found
            ∙ ground arith;
        time = refl;
        added = queue.added;
        appended = jobs_final ∙ queue.appended;
        counted = queue.counted ∙ ground arith;
        due = queue.due;
      }

  pub end_run-IsMoved :
      (m : RunModel Carrier) (target k : ℕ) (db start moved : Db Carrier) {final : Db Carrier}
      → IsMoved m target k db moved
      → end_run F source sup (to_record m) target start moved ≡ ok final
      → IsMoved m target k db final
  unfolding end_run mark_completed
  end_run-IsMoved m target k db start moved {final} h e = elim (Bool-cases (is_running m.status)) [
    | inl live ↦ asked (source.exhausted start (to_record m) target) (rw live at e)
    | inr ended ↦
        let same : moved ≡ final = cc (rw ended at e) in subst (IsMoved m target k db) same h
  ]
    where
      over : RunModel Carrier → Bool
      over x = has_id m.id x && is_running x.status

      completed_row : RunModel Carrier → RunModel Carrier
      completed_row x = record x { status = RunStatus.completed; ended_at = some target }

      marked :
          IsMoved m target k db (record moved { runs = update_where over completed_row moved.runs })
      marked = record {
        row = if over h.row then completed_row h.row else h.row;
        found = find_row-update m.id over completed_row (λ x. refl) moved.runs h.found;
        time = ground (arith, h.time);
        added = h.added;
        appended = h.appended;
        counted = h.counted;
        due = h.due;
      }

      asked :
          (o : Result Bool)
          → (o >>= λ done. ok (
              if done
              then record moved { runs = update_where over completed_row moved.runs }
              else moved))
            ≡ ok final
          → IsMoved m target k db final
      asked (raise x) q = cc q
      asked (ok true) q =
          let same : record moved { runs = update_where over completed_row moved.runs } ≡ final =
            cc q in
          subst (IsMoved m target k db) same marked
      asked (ok false) q = let same : moved ≡ final = cc q in subst (IsMoved m target k db) same h

  -- With no tick the clock stays, otherwise it moves.
  pub ticked-IsMoved :
      (m : RunModel Carrier) (ticks : ℕ) (db : Db Carrier) {k : ℕ} {moved : Db Carrier}
      → find_row m.id db.runs ≡ some m
      → let target = m.simulation_time + ticks * m.tick_seconds * second in
        (if ticks == 0
            then ok (0, db)
            else move_clock F source sup
                (to_record m)
                m.simulation_time
                m.wall_time_anchor
                ticks
                target
                db)
          ≡ ok (k, moved)
        → IsMoved m target k db moved
  ticked-IsMoved m zero db {k} {moved} found h =
      let same : (let p : ℕ × Db Carrier = (0, db) in p) ≡ (k, moved) = cc h in
      let still : m.simulation_time ≡ m.simulation_time + 0 * m.tick_seconds * second =
        omega arith in
      subst (λ x. IsMoved m x k db moved) still
        (subst (λ p. IsMoved m m.simulation_time p.0 db p.1) same (stay-IsMoved m db found))
  ticked-IsMoved m (suc n) db found h =
      let some_ticks : (suc n == 0) ≡ false = ground arith in
      move-IsMoved m m.wall_time_anchor (suc n)
        (m.simulation_time + suc n * m.tick_seconds * second) db found (rw some_ticks at h)
