-- ===== src/Netcode/Ledger.antt =====
-- lag_compensation.cpp: every hit that is validated is accepted or rejected, and the history is bounded.
use working_for_codex.Base.{
  ℕ, ◌+◌, ◌-◌, ◌%◌, ◌^◌, ◌≤◌, ◌≡◌, refl, List, [], ◌∷◌, ◌++◌, Option, none, some, ltb, length,
  arith, length-drop, Bool-cases, inl, inr, Option-cases,
}
use working_for_codex.Base.Real.{Real}
use working_for_codex.Netcode.Rewind.{
  WorldState, HitRequest, LagCompensation, raycast_players, save_world_state, new_compensation,
  get_world_state_at, judge_state, validate_hit,
}

-- The counters add up modulo 2^64, and at most 128 states are kept.
pub record IsTallied {ℓ} {D : Type ℓ} (l : LagCompensation D) : Type 0 where
  pub counted : (l.hits_accepted + l.hits_rejected) % 2 ^ 64 ≡ l.hits_validated % 2 ^ 64
  pub bounded : length l.history ≤ 128

pub data Call {ℓ} (D : Type ℓ) : Type ℓ where
  saved : WorldState D → Call D
  validated : HitRequest D → ℕ → Call D

module _ {ℓ} {D : Type ℓ} ⦃r : Real D⦄ where
  unfoldable pub run : List (Call D) → LagCompensation D → LagCompensation D
  run [] l = l
  run (saved w ∷ cs) l = run cs (save_world_state w l)
  run (validated q now ∷ cs) l = run cs (validate_hit q now l).1

  save-IsTallied :
      (w : WorldState D) (l : LagCompensation D) → IsTallied l → IsTallied (save_world_state w l)
  unfolding save_world_state
  save-IsTallied w l v = record {
    counted = v.counted;
    bounded = omega (arith, length-drop (length (l.history ++ w ∷ []) - 128) (l.history ++ w ∷ []));
  }

  -- A hit has been counted and not yet judged.
  record IsPending (l : LagCompensation D) : Type 0 where
    owed : (l.hits_accepted + l.hits_rejected + 1) % 2 ^ 64 ≡ l.hits_validated % 2 ^ 64
    kept : length l.history ≤ 128

  judge_state-IsTallied :
      (q : HitRequest D) (rewind : ℕ) (o : Option (WorldState D)) (l : LagCompensation D)
      → IsPending l
      → IsTallied (judge_state q rewind o l).1
  judge_state-IsTallied q rewind none l v = record {
    counted = omega (arith, v.owed);
    bounded = v.kept;
  }
  judge_state-IsTallied q rewind (some w) l v = elim (Option-cases (raycast_players w q)) [
    | inl e ↦ rw e (record { counted = omega (arith, v.owed); bounded = v.kept })
    | inr (b, e) ↦ rw e (record { counted = omega (arith, v.owed); bounded = v.kept })
  ]

  validate_hit-IsTallied :
      (q : HitRequest D) (now : ℕ) (l : LagCompensation D)
      → IsTallied l
      → IsTallied (validate_hit q now l).1
  unfolding validate_hit
  validate_hit-IsTallied q now l v =
      let counted : LagCompensation D = record l {
        hits_validated = (l.hits_validated + 1) % 2 ^ 64;
      } in
      let pending : IsPending counted = record {
        owed = omega (arith, v.counted);
        kept = v.bounded;
      } in
      let refused : IsTallied (record counted { hits_rejected = (l.hits_rejected + 1) % 2 ^ 64 }) =
        record { counted = omega (arith, v.counted); bounded = v.bounded } in
      elim (Bool-cases (ltb now q.client_timestamp)) [
        | inl e ↦ rw e refused
        | inr e ↦ rw e (elim (Bool-cases (ltb 200 (now - q.client_timestamp))) [
          | inl f ↦ rw f refused
          | inr f ↦ rw f (
              judge_state-IsTallied q (now - q.client_timestamp)
                (get_world_state_at q.client_timestamp counted) counted pending)
        ])
      ]

  run-IsTallied : (cs : List (Call D)) (l : LagCompensation D) → IsTallied l → IsTallied (run cs l)
  unfolding run
  run-IsTallied [] l v = v
  run-IsTallied (saved w ∷ cs) l v = run-IsTallied cs (save_world_state w l) (save-IsTallied w l v)
  run-IsTallied (validated q now ∷ cs) l v =
      run-IsTallied cs (validate_hit q now l).1 (validate_hit-IsTallied q now l v)

  -- After any history of saved states and validated hits the accepted and the rejected hits add up to
  -- the validated ones, modulo 2^64, and at most 128 states are kept.
  pub run-new-IsTallied : (cs : List (Call D)) → IsTallied (run cs new_compensation)
  unfolding new_compensation
  run-new-IsTallied cs =
      run-IsTallied cs new_compensation (record { counted = refl; bounded = omega arith })
