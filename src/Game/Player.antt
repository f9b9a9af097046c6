-- ===== src/Game/Player.antt =====
-- player_state.h.
use working_for_codex.Base.{ℕ, Bytes, Bool, true}
use working_for_codex.Base.Int.{ℤ, pos}
use working_for_codex.Base.Real.{Real, of_nat}

pub record PlayerState {ℓ} (D : Type ℓ) : Type ℓ where
  pub player_id : Bytes
  pub x : D
  pub y : D
  pub facing_radians : D
  pub last_sequence : ℕ
  pub health : ℤ
  pub is_alive : Bool
  pub shots_fired : ℤ
  pub hits_landed : ℤ
  pub deaths : ℤ

-- `PlayerState{}`, with the id that is set next.
unfoldable pub fresh_player {ℓ} : {D : Type ℓ} ⦃r : Real D⦄ → Bytes → PlayerState D
fresh_player id = record {
  player_id = id;
  x = of_nat 0;
  y = of_nat 0;
  facing_radians = of_nat 0;
  last_sequence = 0;
  health = pos 100;
  is_alive = true;
  shots_fired = pos 0;
  hits_landed = pos 0;
  deaths = pos 0;
}
