-- ===== src/Vm/History.antt =====
-- upsertHistory of controller/util.go: the bounded record of a VM's runs.
use ansible_supervisor_servi.Prelude.{
  ℕ, zero, suc, Bool, true, false, not, ◌&&◌, ◌≤◌, ◌≡◌, refl, List, [], ◌∷◌, arith, any, length,
  take, length-take-le, ◌==◌, ◌is◌, if◌then◌else◌,
}
use ansible_supervisor_servi.Time.{is_set}
use ansible_supervisor_servi.Vm.Model.{HistoryEntry}

abbrev pub history_limit : ℕ
history_limit = 10

-- The fields that the entry says replace what was there.
abbrev pub merge_entry : HistoryEntry → HistoryEntry → HistoryEntry
merge_entry old entry = record {
  job_id = old.job_id;
  status = if entry.status is "" then old.status else entry.status;
  started_at = if is_set entry.started_at then entry.started_at else old.started_at;
  finished_at = if is_set entry.finished_at then entry.finished_at else old.finished_at;
}

abbrev pub has_job : ℕ → List HistoryEntry → Bool
has_job job es = any (λ (e : HistoryEntry). e.job_id == job) es

unfoldable pub update_entry : HistoryEntry → List HistoryEntry → List HistoryEntry
update_entry entry [] = []
update_entry entry (e ∷ es) =
    let rest = update_entry entry es in
    if e.job_id == entry.job_id then merge_entry e entry ∷ es else e ∷ rest

unfoldable pub upsert_history : List HistoryEntry → HistoryEntry → List HistoryEntry
unfolding update_entry
upsert_history existing entry =
    if has_job entry.job_id existing
    then update_entry entry existing
    else take history_limit (entry ∷ existing)

-- Every job once.
abbrev pub distinct_jobs : List HistoryEntry → Bool
distinct_jobs [] = true
distinct_jobs (e ∷ es) = not (has_job e.job_id es) && distinct_jobs es

update-length :
    (entry : HistoryEntry) (es : List HistoryEntry) → length (update_entry entry es) ≡ length es
unfolding update_entry
update-length entry [] = refl
update-length entry (e ∷ es) = ground (arith, update-length entry es)

update-has_job :
    (entry : HistoryEntry) (es : List HistoryEntry) (job : ℕ)
    → has_job job (update_entry entry es) ≡ has_job job es
unfolding update_entry
update-has_job entry [] job = refl
update-has_job entry (e ∷ es) job = ground (arith, update-has_job entry es job)

update-distinct :
    (entry : HistoryEntry) (es : List HistoryEntry)
    → distinct_jobs es ≡ true
    → distinct_jobs (update_entry entry es) ≡ true
unfolding update_entry
update-distinct entry [] d = refl
update-distinct entry (e ∷ es) d =
    ground (arith, d, update-distinct entry es, update-has_job entry es e.job_id)

take-has_job :
    (n : ℕ) (es : List HistoryEntry) (job : ℕ)
    → has_job job es ≡ false
    → has_job job (take n es) ≡ false
take-has_job zero es job h = refl
take-has_job (suc n) [] job h = refl
take-has_job (suc n) (e ∷ es) job h = ground (arith, h, take-has_job n es job)

take-distinct :
    (n : ℕ) (es : List HistoryEntry) → distinct_jobs es ≡ true → distinct_jobs (take n es) ≡ true
take-distinct zero es d = refl
take-distinct (suc n) [] d = refl
take-distinct (suc n) (e ∷ es) d = ground (arith, d, take-distinct n es, take-has_job n es e.job_id)

-- A history of at most ten runs, each job once, is one again after any run is recorded, and the
-- job that was recorded is in it.
pub upsert_history-bounded :
    (existing : List HistoryEntry) (entry : HistoryEntry)
    → length existing ≤ history_limit
    → distinct_jobs existing ≡ true
    → (length (upsert_history existing entry) ≤ history_limit)
      × (distinct_jobs (upsert_history existing entry) ≡ true)
      × (has_job entry.job_id (upsert_history existing entry) ≡ true)
unfolding upsert_history
upsert_history-bounded existing entry b d = ground (
  arith,
  b,
  d,
  update-length entry existing,
  update-distinct entry existing,
  update-has_job entry existing entry.job_id,
  length-take-le history_limit (entry ∷ existing),
  take-distinct history_limit (entry ∷ existing),
)
