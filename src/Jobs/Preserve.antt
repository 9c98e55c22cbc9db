-- ===== src/Jobs/Preserve.antt =====
-- Every operation of the job repository keeps the table valid.
use rumor_mill_ai.Prelude.{
  ℕ, ◌<◌, ◌≡◌, refl, ◌∙◌, ap, Bool, true, false, ◌&&◌, ◌||◌, Option, none, some, arith, String,
  List, [], ◌∷◌, All-update_where_given, map-update_where, update_where, count_where, find_first,
  find_first-All, any, contains, unique, ◌==◌, Bool-cases, inl, inr, ◌⊎◌,
}
use rumor_mill_ai.Json.{Json}
use rumor_mill_ai.Jobs.Model.{pending, JobModel, JobRecord}
use rumor_mill_ai.Jobs.Repo.{
  Table, is_running, is_failed, is_dead, new_row, claimable, claimed, finished, failed_row, retried,
  add_once, claim_first, claim_due_from, candidate_ids, complete, fail, fail_row, retry, retry_row,
  has_id, has_key, leased_by, holds, find_row,
}
use rumor_mill_ai.Jobs.Invariant.{
  IsValidRow, new_row-IsValidRow, claimed-IsValidRow, finished-IsValidRow, failed_row-IsValidRow,
  retried-IsValidRow,
}
use rumor_mill_ai.Jobs.Table.{
  IsValid, ids, found_unique, update-IsValid, append-IsValid, unique_texts,
}

pub add_once-IsValid :
    (job : JobRecord) (created_at : ℕ) (t : Table)
    → 0 < job.max_attempts
    → job.status ≡ pending
    → (any (has_key job.idempotency_key) t ≡ true) ⊎ (contains job.id (ids t) ≡ false)
    → IsValid t
    → IsValid (add_once job created_at t).1
unfolding add_once
add_once-IsValid job created_at t room p new v =
    elim (Bool-cases (any (has_key job.idempotency_key) t)) [
      | inl old ↦ rw old v
      | inr absent ↦ rw absent (
          unfold new_row in
          append-IsValid t (new_row job created_at) (new_row-IsValidRow job created_at room p)
            (elim new [ inl old ↦ cc (old, absent) | inr fresh ↦ fresh ]) absent v)
    ]

pub claim_first-IsValid :
    (worker_id : String) (now lease_until : ℕ) (candidates : List ℕ) (t : Table)
    → IsValid t
    → IsValid (claim_first worker_id now lease_until candidates t).1
unfolding claim_first
claim_first-IsValid worker_id now lease_until [] t v = v
claim_first-IsValid worker_id now lease_until (i ∷ candidates) t v =
    let p : (JobModel → Bool) = λ m. has_id i m && claimable now m in
    let f : (JobModel → JobModel) = claimed worker_id now lease_until in
    let v' : IsValid (update_where p f t) =
      update-IsValid p f (λ m. unfold claimed in refl) (λ m. unfold claimed in refl)
        (λ m h e. claimed-IsValidRow worker_id now lease_until m h (ground arith)) t v in
    elim (Bool-cases (count_where p t == 1)) [
      | inl one ↦ rw one v'
      | inr other ↦
          rw other
            (claim_first-IsValid worker_id now lease_until candidates (update_where p f t) v')
    ]

pub complete-IsValid :
    (i : ℕ) (worker_id : String) (completed_at : ℕ) (result : Json) (t : Table)
    → IsValid t
    → IsValid (complete i worker_id completed_at result t).1
unfolding complete
complete-IsValid i worker_id completed_at result t =
    update-IsValid (leased_by i worker_id) (finished completed_at result) (λ m. refl) (λ m. refl)
      (λ m h e. finished-IsValidRow completed_at result m h (ground arith)) t

find_first-true :
    (p : JobModel → Bool) (t : Table) → find_first (λ x. p x && true) t ≡ find_first p t
find_first-true p [] = refl
find_first-true p (x ∷ t) = ground (arith, find_first-true p t)

-- An update of all rows with an identifier, where the one row found by it allows the update.
module _ (i : ℕ) (q : JobModel → Bool) (f : JobModel → JobModel)
    (same_id : (m : JobModel) → (f m).id ≡ m.id)
    (same_key : (m : JobModel) → (f m).idempotency_key ≡ m.idempotency_key) where
  only_row :
      (m : JobModel)
      → IsValidRow (f m)
      → (x : JobModel) → (has_id i x ≡ false) ⊎ (x ≡ m)
      → has_id i x ≡ true
      → IsValidRow (f x)
  only_row m good x (inl other) h = cc
  only_row m good x (inr same) h = rw same good

  update_found-IsValid :
      (t : Table) {m : JobModel}
      → IsValid t
      → find_first (λ x. has_id i x && q x) t ≡ some m
      → IsValidRow (f m)
      → IsValid (update_where (has_id i) f t)
  update_found-IsValid t {m} v e good = record {
    rows =
        All-update_where_given IsValidRow (λ x. (has_id i x ≡ false) ⊎ (x ≡ m)) (has_id i) f
          (λ x valid only h. only_row m good x only h) t v.rows (found_unique i q t v.ids_unique e);
    ids_unique = ap unique (map-update_where (λ x. x.id) (has_id i) f same_id t) ∙ v.ids_unique;
    keys_unique =
        ap unique_texts (map-update_where (λ x. x.idempotency_key) (has_id i) f same_key t)
        ∙ v.keys_unique;
  }

pub fail-IsValid :
    (i : ℕ) (worker_id : String) (retry_at : ℕ) (error : String) (t : Table)
    → IsValid t
    → IsValid (fail i worker_id retry_at error t).1
unfolding fail
fail-IsValid i worker_id retry_at error t v = fail_found (find_first q t) refl
  where
    q : JobModel → Bool
    q = λ m. has_id i m && holds m.locked_by worker_id

    fail_found :
        (o : Option JobModel) → find_first q t ≡ o → IsValid (fail_row i retry_at error o t).1
    fail_found none e = v
    fail_found (some m) e = elim (Bool-cases (is_running m.status)) [
      | inl live ↦ rw live (
          update_found-IsValid i (λ x. holds x.locked_by worker_id) (failed_row retry_at error)
            (λ x. refl) (λ x. refl) t v e
            (failed_row-IsValidRow retry_at error m (find_first-All IsValidRow q t v.rows e) live))
      | inr idle ↦ rw idle v
    ]

pub retry-IsValid : (i : ℕ) (now : ℕ) (t : Table) → IsValid t → IsValid (retry i now t).1
unfolding retry
retry-IsValid i now t v = retry_found (find_row i t) refl
  where
    retry_found : (o : Option JobModel) → find_row i t ≡ o → IsValid (retry_row i now o t).1
    retry_found none e = v
    retry_found (some m) e = elim (Bool-cases (is_failed m.status || is_dead m.status)) [
      | inl stuck ↦ rw stuck (
          update_found-IsValid i (λ x. true) (retried now) (λ x. refl) (λ x. refl) t v
            (find_first-true (has_id i) t ∙ e)
            (retried-IsValidRow now m (find_first-All IsValidRow (has_id i) t v.rows e)
              (ground arith) (ground arith)))
      | inr live ↦ rw live v
    ]

pub claim_due_from-IsValid :
    (snapshot : Table) (worker_id : String) (now lease_until : ℕ) (t : Table)
    → IsValid t
    → IsValid (claim_due_from snapshot worker_id now lease_until t).1
unfolding claim_due_from
claim_due_from-IsValid snapshot worker_id now lease_until t v =
    claim_first-IsValid worker_id now lease_until (candidate_ids now snapshot) t v
