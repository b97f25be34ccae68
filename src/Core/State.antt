-- ===== src/Core/State.antt =====
-- internal/core/state.go: the lifecycle states, with the comparisons that SQL and Go make on them.
use slusk.Prelude.{
  ℕ, zero, suc, ◌≡◌, refl, ap, sym, ◌∙◌, Bool, true, false, ◌||◌, ◌==◌, ==_iff, List, [], ◌∷◌,
}

pub data AlbumJobState : Type 0 where
  discovered searching selecting downloading verifying importing : AlbumJobState
  completed cooldown failed cancelled wanted done parked orphaned : AlbumJobState
  not_imported import_refused : AlbumJobState

pub data TransferState : Type 0 where
  pending queued in_progress completed errored cancelled stalled : TransferState

pub data CandidateState : Type 0 where
  new active succeeded failed : CandidateState

pub data JobSource : Type 0 where
  lidarr manual : JobSource

abbrev state_tag : AlbumJobState → ℕ
state_tag AlbumJobState.discovered = 0
state_tag AlbumJobState.searching = 1
state_tag AlbumJobState.selecting = 2
state_tag AlbumJobState.downloading = 3
state_tag AlbumJobState.verifying = 4
state_tag AlbumJobState.importing = 5
state_tag AlbumJobState.completed = 6
state_tag AlbumJobState.cooldown = 7
state_tag AlbumJobState.failed = 8
state_tag AlbumJobState.cancelled = 9
state_tag AlbumJobState.wanted = 10
state_tag AlbumJobState.done = 11
state_tag AlbumJobState.parked = 12
state_tag AlbumJobState.orphaned = 13
state_tag AlbumJobState.not_imported = 14
state_tag AlbumJobState.import_refused = 15

state_of_tag : ℕ → AlbumJobState
state_of_tag zero = AlbumJobState.discovered
state_of_tag (suc zero) = AlbumJobState.searching
state_of_tag (suc (suc zero)) = AlbumJobState.selecting
state_of_tag (suc (suc (suc zero))) = AlbumJobState.downloading
state_of_tag (suc (suc (suc (suc zero)))) = AlbumJobState.verifying
state_of_tag (suc (suc (suc (suc (suc zero))))) = AlbumJobState.importing
state_of_tag (suc (suc (suc (suc (suc (suc zero)))))) = AlbumJobState.completed
state_of_tag (suc (suc (suc (suc (suc (suc (suc zero))))))) = AlbumJobState.cooldown
state_of_tag (suc (suc (suc (suc (suc (suc (suc (suc zero)))))))) = AlbumJobState.failed
state_of_tag (suc (suc (suc (suc (suc (suc (suc (suc (suc zero))))))))) = AlbumJobState.cancelled
state_of_tag (suc (suc (suc (suc (suc (suc (suc (suc (suc (suc zero)))))))))) = AlbumJobState.wanted
state_of_tag (suc (suc (suc (suc (suc (suc (suc (suc (suc (suc (suc zero))))))))))) =
    AlbumJobState.done
state_of_tag (suc (suc (suc (suc (suc (suc (suc (suc (suc (suc (suc (suc zero)))))))))))) =
    AlbumJobState.parked
state_of_tag (suc (suc (suc (suc (suc (suc (suc (suc (suc (suc (suc (suc (suc zero))))))))))))) =
    AlbumJobState.orphaned
state_of_tag
      (suc (suc (suc (suc (suc (suc (suc (suc (suc (suc (suc (suc (suc (suc zero)))))))))))))) =
    AlbumJobState.not_imported
state_of_tag
      (suc (suc (suc (suc (suc (suc (suc (suc (suc (suc (suc (suc (suc (suc (suc n))))))))))))))) =
    AlbumJobState.import_refused

state_of_tag-tag : (s : AlbumJobState) → state_of_tag (state_tag s) ≡ s
unfolding state_of_tag
state_of_tag-tag AlbumJobState.discovered = refl
state_of_tag-tag AlbumJobState.searching = refl
state_of_tag-tag AlbumJobState.selecting = refl
state_of_tag-tag AlbumJobState.downloading = refl
state_of_tag-tag AlbumJobState.verifying = refl
state_of_tag-tag AlbumJobState.importing = refl
state_of_tag-tag AlbumJobState.completed = refl
state_of_tag-tag AlbumJobState.cooldown = refl
state_of_tag-tag AlbumJobState.failed = refl
state_of_tag-tag AlbumJobState.cancelled = refl
state_of_tag-tag AlbumJobState.wanted = refl
state_of_tag-tag AlbumJobState.done = refl
state_of_tag-tag AlbumJobState.parked = refl
state_of_tag-tag AlbumJobState.orphaned = refl
state_of_tag-tag AlbumJobState.not_imported = refl
state_of_tag-tag AlbumJobState.import_refused = refl

-- AlbumJobState values compare as their text does.
abbrev pub state_eq : AlbumJobState → AlbumJobState → Bool
state_eq s t = state_tag s == state_tag t

pub state_eq→≡ : (s t : AlbumJobState) → state_eq s t ≡ true → s ≡ t
state_eq→≡ s t h =
    sym (state_of_tag-tag s)
    ∙ ap state_of_tag ((==_iff (state_tag s) (state_tag t)).0 h)
    ∙ state_of_tag-tag t

abbrev transfer_state_tag : TransferState → ℕ
transfer_state_tag TransferState.pending = 0
transfer_state_tag TransferState.queued = 1
transfer_state_tag TransferState.in_progress = 2
transfer_state_tag TransferState.completed = 3
transfer_state_tag TransferState.errored = 4
transfer_state_tag TransferState.cancelled = 5
transfer_state_tag TransferState.stalled = 6

transfer_state_of_tag : ℕ → TransferState
transfer_state_of_tag zero = TransferState.pending
transfer_state_of_tag (suc zero) = TransferState.queued
transfer_state_of_tag (suc (suc zero)) = TransferState.in_progress
transfer_state_of_tag (suc (suc (suc zero))) = TransferState.completed
transfer_state_of_tag (suc (suc (suc (suc zero)))) = TransferState.errored
transfer_state_of_tag (suc (suc (suc (suc (suc zero))))) = TransferState.cancelled
transfer_state_of_tag (suc (suc (suc (suc (suc (suc n)))))) = TransferState.stalled

transfer_state_of_tag-tag : (s : TransferState) → transfer_state_of_tag (transfer_state_tag s) ≡ s
unfolding transfer_state_of_tag
transfer_state_of_tag-tag TransferState.pending = refl
transfer_state_of_tag-tag TransferState.queued = refl
transfer_state_of_tag-tag TransferState.in_progress = refl
transfer_state_of_tag-tag TransferState.completed = refl
transfer_state_of_tag-tag TransferState.errored = refl
transfer_state_of_tag-tag TransferState.cancelled = refl
transfer_state_of_tag-tag TransferState.stalled = refl

-- TransferState values compare as their text does.
abbrev pub transfer_state_eq : TransferState → TransferState → Bool
transfer_state_eq s t = transfer_state_tag s == transfer_state_tag t

pub transfer_state_eq→≡ : (s t : TransferState) → transfer_state_eq s t ≡ true → s ≡ t
transfer_state_eq→≡ s t h =
    sym (transfer_state_of_tag-tag s)
    ∙ ap transfer_state_of_tag ((==_iff (transfer_state_tag s) (transfer_state_tag t)).0 h)
    ∙ transfer_state_of_tag-tag t

abbrev candidate_state_tag : CandidateState → ℕ
candidate_state_tag CandidateState.new = 0
candidate_state_tag CandidateState.active = 1
candidate_state_tag CandidateState.succeeded = 2
candidate_state_tag CandidateState.failed = 3

candidate_state_of_tag : ℕ → CandidateState
candidate_state_of_tag zero = CandidateState.new
candidate_state_of_tag (suc zero) = CandidateState.active
candidate_state_of_tag (suc (suc zero)) = CandidateState.succeeded
candidate_state_of_tag (suc (suc (suc n))) = CandidateState.failed

candidate_state_of_tag-tag :
    (s : CandidateState) → candidate_state_of_tag (candidate_state_tag s) ≡ s
unfolding candidate_state_of_tag
candidate_state_of_tag-tag CandidateState.new = refl
candidate_state_of_tag-tag CandidateState.active = refl
candidate_state_of_tag-tag CandidateState.succeeded = refl
candidate_state_of_tag-tag CandidateState.failed = refl

-- CandidateState values compare as their text does.
abbrev pub candidate_state_eq : CandidateState → CandidateState → Bool
candidate_state_eq s t = candidate_state_tag s == candidate_state_tag t

pub candidate_state_eq→≡ : (s t : CandidateState) → candidate_state_eq s t ≡ true → s ≡ t
candidate_state_eq→≡ s t h =
    sym (candidate_state_of_tag-tag s)
    ∙ ap candidate_state_of_tag ((==_iff (candidate_state_tag s) (candidate_state_tag t)).0 h)
    ∙ candidate_state_of_tag-tag t

abbrev source_tag : JobSource → ℕ
source_tag JobSource.lidarr = 0
source_tag JobSource.manual = 1

source_of_tag : ℕ → JobSource
source_of_tag zero = JobSource.lidarr
source_of_tag (suc n) = JobSource.manual

source_of_tag-tag : (s : JobSource) → source_of_tag (source_tag s) ≡ s
unfolding source_of_tag
source_of_tag-tag JobSource.lidarr = refl
source_of_tag-tag JobSource.manual = refl

-- JobSource values compare as their text does.
abbrev pub source_eq : JobSource → JobSource → Bool
source_eq s t = source_tag s == source_tag t

pub source_eq→≡ : (s t : JobSource) → source_eq s t ≡ true → s ≡ t
source_eq→≡ s t h =
    sym (source_of_tag-tag s)
    ∙ ap source_of_tag ((==_iff (source_tag s) (source_tag t)).0 h)
    ∙ source_of_tag-tag t

-- SQL's `state IN (…)`.
abbrev pub state_in : AlbumJobState → List AlbumJobState → Bool
state_in s [] = false
state_in s (t ∷ ts) = state_eq s t || state_in s ts

-- Terminal: the legacy engine's notion of an end state.
unfoldable pub terminal : AlbumJobState → Bool
terminal s =
    state_eq s AlbumJobState.completed
    || state_eq s AlbumJobState.failed
    || state_eq s AlbumJobState.cancelled

-- PipelineTerminal: the end states of the pipeline state machine.
unfoldable pub pipeline_terminal : AlbumJobState → Bool
pipeline_terminal s =
    state_eq s AlbumJobState.done
    || state_eq s AlbumJobState.cancelled
    || state_eq s AlbumJobState.failed
    || state_eq s AlbumJobState.not_imported
    || state_eq s AlbumJobState.import_refused

-- SQL's `state IN (PENDING, QUEUED, IN_PROGRESS, STALLED)`, the transfers that still own their file.
abbrev pub is_live : TransferState → Bool
is_live TransferState.pending = true
is_live TransferState.queued = true
is_live TransferState.in_progress = true
is_live TransferState.stalled = true
is_live _ = false
