-- ===== src/Game/Projectile.antt =====
-- projectile.h and projectile.cpp.
use working_for_codex.Base.{Bool, true, false, Bytes, Option, none, some, if◌then◌else◌, not}
use working_for_codex.Base.Real.{Real}

pub record Projectile {ℓ} (D : Type ℓ) : Type ℓ where
  pub id : Bytes
  pub owner_id : Bytes
  pub x : D
  pub y : D
  pub dir_x : D
  pub dir_y : D
  pub spawn_time : D
  pub active : Bool

module _ {ℓ} {D : Type ℓ} ⦃r : Real D⦄ where
  -- The constructor, with `none` where it throws `std::invalid_argument`.
  unfoldable pub new_projectile : Bytes → Bytes → D → D → D → D → D → Option (Projectile D)
  new_projectile id owner_id x y dir_x dir_y spawn_time =
      let magnitude = r.sqrt (r.add (r.mul dir_x dir_x) (r.mul dir_y dir_y)) in
      if r.less magnitude (r.ratio 1 1000000000)
      then none
      else some (record {
        id = id;
        owner_id = owner_id;
        x = x;
        y = y;
        dir_x = r.div dir_x magnitude;
        dir_y = r.div dir_y magnitude;
        spawn_time = spawn_time;
        active = true;
      })

  unfoldable pub advance : D → Projectile D → Projectile D
  advance delta p = if not p.active then p else record p {
    x = r.add p.x (r.mul (r.mul p.dir_x (r.ratio 30 1)) delta);
    y = r.add p.y (r.mul (r.mul p.dir_y (r.ratio 30 1)) delta);
  }

  unfoldable pub is_expired : D → Projectile D → Bool
  is_expired now p =
      if not p.active then true else r.at_most (r.ratio 15 10) (r.sub now p.spawn_time)

  -- `kRadius_`.
  abbrev pub radius : D
  radius = r.ratio 2 10

unfoldable pub deactivate {ℓ} : {D : Type ℓ} → Projectile D → Projectile D
deactivate p = record p { active = false }
