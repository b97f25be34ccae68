-- ===== src/Store/Rejections/Bars.antt =====
-- The rejection history of internal/store/rejections.go as its reader sees it, and the length of
-- the cooldown.
use slusk.Prelude.{
  ℕ, ◌+◌, ◌-◌, ◌*◌, ◌%◌, ◌^◌, ◌≤◌, ◌<◌, ◌≡◌, refl, Bool, true, false, ◌&&◌, ◌||◌, ◌==◌, Option,
  List, arith, if◌then◌else◌, Bool-cases, inl, inr, ltb, none, some, ap, Option-cases,
}
use slusk.Prelude.Text.{Text, text_eq_refl, is_empty}
use slusk.Core.Models.{CandidateRejection}
use slusk.Matcher.Path.{release_dir}
use slusk.Store.Table.{
  update, exists, find_row, find_row-holds, find_row-exists, exists-append, exists-update,
}
use slusk.Store.Table.Found.{
  exists-select, exists-update_key, find_row-none, find_row-append, find_row-update,
}
use slusk.Store.Db.{Db}
use slusk.Store.Rejections.{
  CooldownPolicy, cooldown_for, rejected_candidates, rejection_is, bars, retry_after_of,
  attempts_of, upsert_rejection, record_rejection_row, int64_negative, max_exponent,
}

-- The guard that cooldownFor and nextBackoff end with.
abbrev pub capped : ℕ → ℕ → ℕ
capped d cap = if ltb cap d || int64_negative d then cap else d

pub clamp_id : (exp : ℕ) → exp ≤ 32 → (if ltb max_exponent exp then max_exponent else exp) ≡ exp
clamp_id exp h = ground arith

pub capped_exact :
    (d cap : ℕ) → d < 2 ^ 63 → capped (d % 2 ^ 64) cap ≡ (if ltb cap d then cap else d)
capped_exact d cap h = let whole : d % 2 ^ 64 ≡ d = omega arith in rw whole (ground arith)

-- The pair is in RejectedCandidates at this time.
abbrev pub barred_at : Db → ℕ → Text → Text → ℕ → Bool
barred_at db job username dir now =
    exists (rejection_is job username dir) (rejected_candidates db job now)

upserted :
    (job : ℕ) (username dir reason : Text) (now : ℕ) (rows : List CandidateRejection)
    → exists (rejection_is job username dir) (upsert_rejection job username dir reason now rows)
      ≡ true
unfolding upsert_rejection exists
upserted job username dir reason now rows =
    elim (Bool-cases (exists (rejection_is job username dir) rows)) [
      | inl e ↦
          rw (e, upsert_rejection)
            (rw
              (exists-update (rejection_is job username dir) (rejection_is job username dir)
                (λ r. record r { reason = reason; created_at = now; attempts = r.attempts + 1 })
                rows (λ r. refl))
              e)
      | inr e ↦
          rw (e, upsert_rejection)
            (rw (exists-append (rejection_is job username dir) rows _)
              (ground (arith, text_eq_refl username, text_eq_refl dir)))
    ]

-- The rejections of the pair that are on record.
abbrev pub recorded_attempts : Db → ℕ → Text → Text → ℕ
recorded_attempts db job username dir =
    attempts_of (find_row (rejection_is job username dir) db.rejections)

-- One more rejection counts one more attempt.
upserted-attempts :
    (db : Db) (job : ℕ) (username dir reason : Text) (now : ℕ)
    → attempts_of (
        find_row
          (rejection_is job username dir)
          (upsert_rejection job username dir reason now db.rejections))
      ≡ recorded_attempts db job username dir + 1
unfolding upsert_rejection
upserted-attempts db job username dir reason now =
    let is = rejection_is job username dir in
    elim (Option-cases (find_row is db.rejections)) [
      | inl e ↦
          let absent = find_row-none is db.rejections e in
          rw (absent, upsert_rejection)
            (rw (find_row-append is db.rejections _ absent)
              (rw e (unfold find_row in ground (arith, text_eq_refl username, text_eq_refl dir))))
      | inr (r, e) ↦
          let after =
            find_row-update is is
              (λ x. record x { reason = reason; created_at = now; attempts = x.attempts + 1 })
              db.rejections r (λ x. refl) e in
          let key = find_row-holds is db.rejections r e in
          rw (find_row-exists is db.rejections r e, upsert_rejection)
            (rw after (rw key (rw e refl)))
    ]

-- Whether a rejection at `now`, after so many earlier ones, still bars its pair at `later`.
unfoldable pub still_barred : Option CooldownPolicy → ℕ → ℕ → ℕ → Bool
still_barred none earlier now later = true
still_barred (some policy) earlier now later =
    ltb later (now + cooldown_for (earlier + 1) policy.base policy.cap)

bars-still_barred :
    (cooldown : Option CooldownPolicy) (earlier attempts now later : ℕ)
    → attempts ≡ earlier + 1
    → bars (retry_after_of cooldown attempts now) later ≡ still_barred cooldown earlier now later
unfolding still_barred
bars-still_barred none earlier attempts now later same = refl
bars-still_barred (some policy) earlier attempts now later same =
    ap (λ n. ltb later (now + cooldown_for n policy.base policy.cap)) same

-- Once a rejection is recorded for a candidate with a cached file, its pair of peer and release
-- folder is barred at all times where the rejection has no cooldown, and else before the end of
-- the cooldown for one attempt more than were on record for the pair, counted from this
-- rejection.
pub record_rejection_row_lem :
    (db : Db) (job : ℕ) (username filename reason : Text) (cooldown : Option CooldownPolicy)
    (now later : ℕ)
    → is_empty filename ≡ false
    → barred_at
        (record_rejection_row db job username filename reason cooldown now)
        job
        username
        (release_dir filename)
        later
      ≡ still_barred cooldown (recorded_attempts db job username (release_dir filename)) now later
unfolding record_rejection_row rejected_candidates
record_rejection_row_lem db job username filename reason cooldown now later named =
    let dir = release_dir filename in
    let rows = upsert_rejection job username dir reason now db.rejections in
    let attempts = attempts_of (find_row (rejection_is job username dir) rows) in
    let until = retry_after_of cooldown attempts now in
    rw (named, record_rejection_row)
      (rw
        (exists-select (rejection_is job username dir)
          (λ r. r.album_job_id == job && bars r.retry_after later)
          (update (rejection_is job username dir) (λ r. record r { retry_after = until }) rows))
        (rw
          (exists-update_key
            (λ r.
              rejection_is job username dir r
              && (r.album_job_id == job && bars r.retry_after later))
            (rejection_is job username dir) (λ r. bars r.retry_after later) (bars until later)
            (λ r. record r { retry_after = until }) rows (λ r. ground arith) (λ r. refl)
            (λ r. refl))
          (rw (upserted job username dir reason now db.rejections) (
            bars-still_barred cooldown (recorded_attempts db job username dir) attempts now later
              (upserted-attempts db job username dir reason now)))))

-- Where the doubled base does not overflow an int64, for at most 33 attempts, the cooldown is
-- that base, cut at the cap.
pub cooldown_for_exact :
    (attempts base cap : ℕ)
    → attempts ≤ 33
    → base * 2 ^ (attempts - 1) < 2 ^ 63
    → cooldown_for attempts base cap
      ≡ (if ltb cap (base * 2 ^ (attempts - 1)) then cap else base * 2 ^ (attempts - 1))
unfolding cooldown_for
cooldown_for_exact attempts base cap few fits =
    rw (clamp_id (attempts - 1) (omega arith)) (capped_exact (base * 2 ^ (attempts - 1)) cap fits)
