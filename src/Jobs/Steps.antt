-- ===== src/Jobs/Steps.antt =====
-- The life of one job as a state machine, and the repository as its implementation.
use rumor_mill_ai.Prelude.{
  ℕ, ◌≡◌, refl, ap, sym, subst, ◌∙◌, ◌&&◌, ◌||◌, String, Bool, true, false, Option, none, some, [],
  ◌∷◌, ◌++◌, arith, inl, inr, ◌⊎◌, Bool-cases, unique, update_where, find_first, find_first-All,
  any,
}
use rumor_mill_ai.Json.{Json}
use rumor_mill_ai.Jobs.Model.{JobModel, JobRecord}
use rumor_mill_ai.Jobs.Repo.{
  Table, find_row, has_id, has_key, leased_by, is_running, is_failed, is_dead, holds, fail_row,
  retry_row, claimable, claim_due_from, claimed, finished, failed_row, retried, new_row, add_once,
  complete, fail, retry,
}
use rumor_mill_ai.Jobs.Table.{ids, found_unique}
use rumor_mill_ai.Jobs.Claim.{claim_due_from-Claims}
use rumor_mill_ai.Jobs.Lookup.{find_row-update, has_id-found, find-at}

pub data Step (m : JobModel) : JobModel → Type 0 where
  claim :
      (worker_id : String) (now lease_until : ℕ)
      → claimable now m ≡ true
      → Step m (claimed worker_id now lease_until m)
  finish : (at : ℕ) (value : Json) → is_running m.status ≡ true → Step m (finished at value m)
  give_up :
      (retry_at : ℕ) (error : String)
      → is_running m.status ≡ true
      → Step m (failed_row retry_at error m)
  restart : (now : ℕ) → (is_failed m.status || is_dead m.status) ≡ true → Step m (retried now m)

-- The operations of the repository that change the table.
pub data Op : Type 0 where
  add_job : JobRecord → ℕ → Op
  claim_job : Table → String → ℕ → ℕ → Op
  complete_job : ℕ → String → ℕ → Json → Op
  fail_job : ℕ → String → ℕ → String → Op
  retry_job : ℕ → ℕ → Op

unfoldable pub apply : Op → Table → Table
apply (add_job job created_at) t = (add_once job created_at t).1
apply (claim_job snapshot worker_id now lease_until) t =
    (claim_due_from snapshot worker_id now lease_until t).1
apply (complete_job i worker_id at value) t = (complete i worker_id at value t).1
apply (fail_job i worker_id retry_at error) t = (fail i worker_id retry_at error t).1
apply (retry_job i now) t = (retry i now t).1

-- The row stays, or makes one step of its life.
abbrev pub Moves : JobModel → JobModel → Type 0
Moves m m' = (m' ≡ m) ⊎ Step m m'

-- The row that an identifier finds afterwards, and how it came about.
abbrev pub MovesIn : ℕ → JobModel → Table → Type 0
MovesIn i m t' = (m' : JobModel) × (find_row i t' ≡ some m') × Moves m m'

update-MovesIn :
    (i : ℕ) (p : JobModel → Bool) (f : JobModel → JobModel)
    → ((x : JobModel) → (f x).id ≡ x.id)
    → (t : Table) (m : JobModel) → find_row i t ≡ some m
    → (p m ≡ true → Step m (f m))
    → MovesIn i m (update_where p f t)
update-MovesIn i p f same t m found step = elim (Bool-cases (p m)) [
  | inl hit ↦ (f m, find_row-update i p f same t found ∙ rw hit, inr (step hit))
  | inr miss ↦ (m, find_row-update i p f same t found ∙ rw miss, inl refl)
]

pub find_row-append :
    (i : ℕ) (t u : Table) (m : JobModel) → find_row i t ≡ some m → find_row i (t ++ u) ≡ some m
find_row-append i [] u m h = cc
find_row-append i (x ∷ t) u m h = ground (arith, find_row-append i t u m)

module _ (i : ℕ) (t : Table) (m : JobModel) (unique_ids : unique (ids t) ≡ true)
    (found : find_row i t ≡ some m) where
  stays : MovesIn i m t
  stays = (m, found, inl refl)

  add-MovesIn : (job : JobRecord) (created_at : ℕ) → MovesIn i m (add_once job created_at t).1
  unfolding add_once
  add-MovesIn job created_at = elim (Bool-cases (any (has_key job.idempotency_key) t)) [
    | inl old ↦ rw old stays
    | inr new ↦ rw new (m, find_row-append i t (new_row job created_at ∷ []) m found, inl refl)
  ]

  claim-MovesIn :
      (snapshot : Table) (worker_id : String) (now lease_until : ℕ)
      → MovesIn i m (claim_due_from snapshot worker_id now lease_until t).1
  claim-MovesIn snapshot worker_id now lease_until =
      elim (claim_due_from-Claims worker_id now lease_until snapshot t unique_ids) [
        | inl nothing ↦ rw nothing stays
        | inr (n, c) ↦ rw (c.3) (
            update-MovesIn i (has_id n.id) (claimed worker_id now lease_until)
              (λ x. unfold claimed in refl) t m found
              (λ hit. claim worker_id now lease_until (same_row n hit c.0 ∙ c.1)))
      ]
    where
      same_row :
          (n : JobModel)
          → has_id n.id m ≡ true
          → find_row n.id t ≡ some n
          → claimable now m ≡ claimable now n
      same_row n hit found' =
          let one : n.id ≡ i = ground (arith, has_id-found i t found) in
          let row : some n ≡ some m = sym found' ∙ ap (λ j. find_row j t) one ∙ found in
          let eq : m ≡ n = cc row in ap (claimable now) eq

  complete-MovesIn :
      (j : ℕ) (worker_id : String) (at : ℕ) (value : Json)
      → MovesIn i m (complete j worker_id at value t).1
  unfolding complete
  complete-MovesIn j worker_id at value =
      update-MovesIn i (leased_by j worker_id) (finished at value) (λ x. refl) t m found
        (λ hit. finish at value (ground arith))

  -- The row that `j` and a test find allows a step, and `m` is that row if `j` is its identifier.
  found-MovesIn :
      (j : ℕ) (q : JobModel → Bool) (f : JobModel → JobModel) (n : JobModel)
      → ((x : JobModel) → (f x).id ≡ x.id)
      → find_first (λ x. has_id j x && q x) t ≡ some n
      → Step n (f n)
      → MovesIn i m (update_where (has_id j) f t)
  found-MovesIn j q f n same e step =
      update-MovesIn i (has_id j) f same t m found
        (λ hit. subst (λ x. Step x (f x)) (only hit) step)
    where
      only : has_id j m ≡ true → n ≡ m
      only hit =
          elim (find_first-All (λ x. (has_id j x ≡ false) ⊎ (x ≡ n)) (has_id i) t
            (found_unique j q t unique_ids e) found) [
              | inl miss ↦ cc (hit, miss)
              | inr one ↦ sym one
            ]

  fail-MovesIn :
      (j : ℕ) (worker_id : String) (retry_at : ℕ) (error : String)
      → MovesIn i m (fail j worker_id retry_at error t).1
  unfolding fail
  fail-MovesIn j worker_id retry_at error = fail_found (find_first q t) refl
    where
      q : JobModel → Bool
      q = λ x. has_id j x && holds x.locked_by worker_id

      fail_found :
          (o : Option JobModel) → find_first q t ≡ o → MovesIn i m (fail_row j retry_at error o t).1
      fail_found none e = stays
      fail_found (some n) e = elim (Bool-cases (is_running n.status)) [
        | inl live ↦ rw live (
            found-MovesIn j (λ x. holds x.locked_by worker_id) (failed_row retry_at error) n
              (λ x. refl) e (give_up retry_at error live))
        | inr idle ↦ rw idle stays
      ]

  retry-MovesIn : (j now : ℕ) → MovesIn i m (retry j now t).1
  unfolding retry
  retry-MovesIn j now = retry_found (find_row j t) refl
    where
      retry_found : (o : Option JobModel) → find_row j t ≡ o → MovesIn i m (retry_row j now o t).1
      retry_found none e = stays
      retry_found (some n) e = elim (Bool-cases (is_failed n.status || is_dead n.status)) [
        | inl stuck ↦ rw stuck (
            found-MovesIn j (λ x. true) (retried now) n (λ x. refl) (find-at j (λ x. true) t e refl)
              (restart now stuck))
        | inr live ↦ rw live stays
      ]

  -- Every operation of the repository, from any worker and for any job, leaves each row as it
  -- is or moves it by one step of the state machine.
  pub apply-refines : (op : Op) → MovesIn i m (apply op t)
  unfolding apply
  apply-refines (add_job job created_at) = add-MovesIn job created_at
  apply-refines (claim_job snapshot worker_id now lease_until) =
      claim-MovesIn snapshot worker_id now lease_until
  apply-refines (complete_job j worker_id at value) = complete-MovesIn j worker_id at value
  apply-refines (fail_job j worker_id retry_at error) = fail-MovesIn j worker_id retry_at error
  apply-refines (retry_job j now) = retry-MovesIn j now
