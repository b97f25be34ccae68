-- ===== src/Pipeline/TopUp/Rule.antt =====
-- The loop of topUpCandidate, by what each of its turns keeps.
use slusk.Prelude.{ℕ, suc, ◌≡◌, refl, ◌⊎◌, inl, inr, List, [], ◌∷◌, leb, Bool-cases}
use slusk.Core.Models.{Transfer}
use slusk.Pipeline.World.{World, Backend}
use slusk.Pipeline.TopUp.{
  TopUpSettings, Send, sent_file, not_sent, stopped, broken, send_file, send_files,
}

-- The outcome leaves a world where P holds of the number of files sent.
abbrev pub SendHolds {κ} : (World → ℕ → Type κ) → ℕ → Send → Type κ
SendHolds P n (sent_file v) = P v (suc n)
SendHolds P n (not_sent v) = P v n
SendHolds P n (stopped v) = P v n
SendHolds P n (broken v) = P v n

pub Send-cases :
    (r : Send)
    → ((v : World) × (r ≡ sent_file v))
      ⊎ ((v : World) × (r ≡ not_sent v))
      ⊎ ((v : World) × (r ≡ stopped v))
      ⊎ ((v : World) × (r ≡ broken v))
Send-cases (sent_file v) = inl (v, refl)
Send-cases (not_sent v) = inr (inl (v, refl))
Send-cases (stopped v) = inr (inr (inl (v, refl)))
Send-cases (broken v) = inr (inr (inr (v, refl)))

module _ {κ} (P : World → ℕ → Type κ) (s : TopUpSettings) (b : Backend) (candidate now : ℕ) where
  pub send_files_rule :
      ((p : Transfer) (w : World) (n : ℕ) → P w n → SendHolds P n (send_file s b candidate now p w))
      → (ps : List Transfer) (inflight n : ℕ) (w : World) → P w n
      → P
          (send_files s b candidate now ps inflight n w).world
          (send_files s b candidate now ps inflight n w).sent
  unfolding send_files
  send_files_rule step [] inflight n w h = h
  send_files_rule step (p ∷ ps) inflight n w h =
      elim (Bool-cases (leb s.max_inflight_per_peer inflight)) [
        | inl e ↦ rw (e, send_files) h
        | inr e ↦ elim (Send-cases (send_file s b candidate now p w)) [
          | inl (v, k) ↦
              rw (e, k, send_files)
                (send_files_rule step ps (suc inflight) (suc n) v
                  (rw (k, SendHolds) at (step p w n h)))
          | inr (inl (v, k)) ↦
              rw (e, k, send_files)
                (send_files_rule step ps inflight n v (rw (k, SendHolds) at (step p w n h)))
          | inr (inr (inl (v, k))) ↦ rw (e, k, send_files) (rw (k, SendHolds) at (step p w n h))
          | inr (inr (inr (v, k))) ↦ rw (e, k, send_files) (rw (k, SendHolds) at (step p w n h))
        ]
      ]
