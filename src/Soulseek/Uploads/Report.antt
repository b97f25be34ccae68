-- ===== src/Soulseek/Uploads/Report.antt =====
-- internal/soulseek/uploads.go: the report for the dashboard.
use slusk.Prelude.{
  ℕ, suc, ◌+◌, ◌-◌, ◌%◌, ◌^◌, Bool, true, false, none, some, List, [], ◌∷◌, ◌++◌, leb, length, take,
  map,
}
use slusk.Prelude.Text.{Text}
use slusk.Store.Table.{select, find_row}
use slusk.Store.Jobs.{sort_by}
use slusk.Soulseek.Uploads.{UploadManager, UploadJob, id_is}

pub record UploadEntry : Type 0 where
  pub username : Text
  pub filename : Text
  pub active : Bool
  pub position : ℕ
  pub size : ℕ
  pub bytes_written : ℕ

abbrev entry_of : Bool → ℕ → UploadJob → UploadEntry
entry_of active position j = record {
  username = j.key.username;
  filename = j.key.filename;
  active = active;
  position = position;
  size = j.size;
  bytes_written = j.sent;
}

-- The jobs that the ids stand for.
unfoldable pub jobs_of : List UploadJob → List ℕ → List UploadJob
jobs_of heap [] = []
jobs_of heap (id ∷ ids) = elim (find_row (id_is id) heap) [
  | none ↦ jobs_of heap ids
  | some j ↦ j ∷ jobs_of heap ids
]

unfoldable pub waiting_entries : ℕ → List UploadJob → List UploadEntry
waiting_entries i [] = []
waiting_entries i (j ∷ js) = entry_of false ((i + 1) % 2 ^ 32) j ∷ waiting_entries (suc i) js

pub record UploadReport : Type 0 where
  pub slots : ℕ
  pub active : ℕ
  pub queued : ℕ
  pub truncated : ℕ
  pub uploads : List UploadEntry

-- report, with a limit that is not negative
unfoldable pub report : UploadManager → ℕ → UploadReport
unfolding jobs_of waiting_entries
report m limit =
    let running =
      sort_by (λ a b. leb a.seq b.seq)
        (select (λ j. j.active) (jobs_of m.heap (map (λ e. e.1) m.by_key))) in
    let queued = take limit (jobs_of m.heap m.waiting) in
    record {
      slots = m.slots;
      active = m.active;
      queued = length m.waiting;
      truncated = length m.waiting - length queued;
      uploads = map (entry_of true 0) running ++ waiting_entries 0 queued;
    }
