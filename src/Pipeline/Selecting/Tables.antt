-- ===== src/Pipeline/Selecting/Tables.antt =====
-- What parts of a tick of Selecting leave alone: internal/pipeline/selecting.go.
use slusk.Prelude.{◌≡◌, refl, List, [], ◌∷◌, ℕ, arith}
use slusk.Prelude.Text.{Text}
use slusk.Pipeline.World.{World}
use slusk.Pipeline.Quarantine.{Disk, quarantine_folder}
use slusk.Pipeline.Selecting.{record_moved, Verdict, proceed, leave_batch, broken_off}

abbrev pub verdict_world : Verdict → World
verdict_world (proceed w) = w
verdict_world (leave_batch w) = w
verdict_world (broken_off w) = w

pub quarantine_folder-tables :
    (d : Disk) (job : ℕ) (root leaf dir : Text) (w : World)
    → (quarantine_folder d job root leaf dir w).0.tables ≡ w.tables
unfolding quarantine_folder
quarantine_folder-tables d job root leaf dir w = ground arith

pub record_moved-tables :
    (job : ℕ) (r : World × List Text) → (record_moved job r).tables ≡ r.0.tables
record_moved-tables job (w, []) = refl
record_moved-tables job (w, n ∷ ns) = refl
