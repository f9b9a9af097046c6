-- ===== src/Netcode/Hits.antt =====
-- lag_compensation.cpp: which hits are accepted, and what is counted.
use working_for_codex.Base.{
  ℕ, ◌+◌, ◌-◌, ◌%◌, ◌^◌, ◌≤◌, ◌≡◌, ◌⊎◌, inl, inr, refl, ◌∙◌, Bool, true, false, not, ◌||◌, ◌&&◌,
  Bytes, List, [], ◌∷◌, Option, none, some, if◌then◌else◌, ltb, bytes_eq, same, same_iff, arith,
  Bool-cases, Option-cases,
}
use working_for_codex.Base.Real.{Real, narrow}
use working_for_codex.Game.Player.{PlayerState}
use working_for_codex.Netcode.Rewind.{
  WorldState, HitRequest, LagCompensation, Closest, nearer, raycast, unless_unnamed,
  raycast_players, max_float, ray_circle_intersect, get_world_state_at, judge_state, validate_hit,
}

-- Some living player of the list has the id.
unfoldable pub has_living {ℓ} : {D : Type ℓ} → Bytes → List (PlayerState D) → Bool
has_living id [] = false
has_living id (p ∷ ps) = (p.is_alive && same p.player_id id) || has_living id ps

module _ {ℓ} {D : Type ℓ} ⦃r : Real D⦄ where
  nearer-cases :
      (id : Bytes) (o : Option D) (best : Closest D)
      → ((nearer id o best).player ≡ best.player) ⊎ ((nearer id o best).player ≡ id)
  nearer-cases id none best = inl refl
  nearer-cases id (some t) best = elim (Bool-cases (r.less t best.distance)) [
    | inl e ↦ simp e (inr refl)
    | inr e ↦ simp e (inl refl)
  ]

  skips : HitRequest D → PlayerState D → Bool
  skips q p = same p.player_id q.shooter_id || not p.is_alive

  found-cons :
      (q : HitRequest D) (p : PlayerState D) (ps : List (PlayerState D)) (x was next : Bytes)
      → (x ≡ next) ⊎ ((same x q.shooter_id ≡ false) × (has_living x ps ≡ true))
      → (next ≡ was) ⊎ ((next ≡ p.player_id) × (skips q p ≡ false))
      → (x ≡ was) ⊎ ((same x q.shooter_id ≡ false) × (has_living x (p ∷ ps) ≡ true))
  unfolding has_living skips
  found-cons q p ps x was next (inl e) (inl f) = inl (e ∙ f)
  found-cons q p ps x was next (inl e) (inr (f, g)) =
      let is : x ≡ p.player_id = e ∙ f in
      let own : same p.player_id p.player_id ≡ true = (same_iff p.player_id p.player_id).1 refl in
      inr (rw is (ground (arith, g)), rw (is, own) (ground (arith, g)))
  found-cons q p ps x was next (inr (e, f)) h = inr (e, rw f (ground arith))

  next-cases :
      (q : HitRequest D) (p : PlayerState D) (met : Option D) (best : Closest D)
      → ((if skips q p then best else nearer p.player_id met best).player ≡ best.player)
        ⊎ (((if skips q p then best else nearer p.player_id met best).player ≡ p.player_id)
            × (skips q p ≡ false))
  next-cases q p met best = elim (Bool-cases (skips q p)) [
    | inl e ↦ rw e (inl refl)
    | inr e ↦
        rw e (elim (nearer-cases p.player_id met best) [ inl f ↦ inl f | inr f ↦ inr (f, refl) ])
  ]

  -- Who is found was found before or is a living player other than the shooter.
  raycast-cases :
      (q : HitRequest D) (ps : List (PlayerState D)) (best : Closest D)
      → ((raycast q ps best).player ≡ best.player)
        ⊎ ((same (raycast q ps best).player q.shooter_id ≡ false)
            × (has_living (raycast q ps best).player ps ≡ true))
  unfolding raycast skips
  raycast-cases q [] best = inl refl
  raycast-cases q (p ∷ ps) best =
      let met =
        ray_circle_intersect q.origin_x q.origin_y q.direction_x q.direction_y (narrow p.x)
          (narrow p.y) (r.ratio 1 2) in
      let next = if skips q p then best else nearer p.player_id met best in
      found-cons q p ps (raycast q ps next).player best.player next.player (raycast-cases q ps next)
        (next-cases q p met best)

  unless_unnamed-cases :
      (x : Bytes) (best b : Closest D) → unless_unnamed x best ≡ some b → (x ≡ [] → ⊥) × (best ≡ b)
  unless_unnamed-cases [] best b e = absurd cc
  unless_unnamed-cases (y ∷ ys) best b e = (λ n. absurd cc, cc)

  raycast_players-living :
      (w : WorldState D) (q : HitRequest D) (b : Closest D)
      → raycast_players w q ≡ some b
      → (same b.player q.shooter_id ≡ false) × (has_living b.player w.players ≡ true)
  unfolding raycast_players
  raycast_players-living w q b e =
      let start : Closest D = record { distance = max_float; player = [] } in
      let best = raycast q w.players start in
      let (named, is) = unless_unnamed-cases best.player best b e in
      elim (raycast-cases q w.players start) [ inl f ↦ absurd (named f) | inr h ↦ rw⁻¹ is h ]

  judge_state-valid :
      (q : HitRequest D) (rewind : ℕ) (o : Option (WorldState D)) (l : LagCompensation D)
      → (judge_state q rewind o l).0.valid ≡ true
      → (w : WorldState D) × (o ≡ some w)
        × (same (judge_state q rewind o l).0.hit_player_id q.shooter_id ≡ false)
        × (has_living (judge_state q rewind o l).0.hit_player_id w.players ≡ true)
  judge_state-valid q rewind none l v = absurd cc
  judge_state-valid q rewind (some w) l v = elim (Option-cases (raycast_players w q)) [
    | inl e ↦ let got = rw e at v in absurd cc
    | inr (b, e) ↦
        let (apart, living) = raycast_players-living w q b e in rw e (w, refl, apart, living)
  ]

  -- A hit is accepted only for a time that is not later than the server's and at most 200 milliseconds
  -- before it, and only when the history has a state for that time in which the player who is hit is
  -- alive; and that player is never the shooter.
  pub validate_hit-valid :
      (q : HitRequest D) (server_time : ℕ) (l : LagCompensation D)
      → (validate_hit q server_time l).0.valid ≡ true
      → (q.client_timestamp ≤ server_time)
        × (server_time ≤ q.client_timestamp + 200)
        × (w : WorldState D) × (get_world_state_at q.client_timestamp l ≡ some w)
        × (same (validate_hit q server_time l).0.hit_player_id q.shooter_id ≡ false)
        × (has_living (validate_hit q server_time l).0.hit_player_id w.players ≡ true)
  unfolding validate_hit get_world_state_at
  validate_hit-valid q server_time l v = elim (Bool-cases (ltb server_time q.client_timestamp)) [
    | inl e ↦ let got = rw e at v in absurd cc
    | inr e ↦ elim (Bool-cases (ltb 200 (server_time - q.client_timestamp))) [
      | inl f ↦ let got = rw (e, f) at v in absurd cc
      | inr f ↦
          let counted : LagCompensation D = record l {
            hits_validated = (l.hits_validated + 1) % 2 ^ 64;
          } in
          let (w, at, apart, living) =
            judge_state-valid q (server_time - q.client_timestamp)
              (get_world_state_at q.client_timestamp counted) counted (rw (e, f) at v) in
          (ground (arith, e), ground (arith, f), w, at, rw (e, f) apart, rw (e, f) living)
    ]
  ]
