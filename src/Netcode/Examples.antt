-- ===== src/Netcode/Examples.antt =====
-- Prediction and lag compensation run on small histories.
use working_for_codex.Base.{
  ℕ, ◌+◌, ◌≤◌, ◌≡◌, refl, true, false, [], ◌∷◌, ◌++◌, some, codes, same, arith,
}
use working_for_codex.Base.Grid.{grid}
use working_for_codex.Game.Player.{PlayerState, fresh_player}
use working_for_codex.Packet.Types.{InputCommand}
use working_for_codex.Netcode.Prediction.{new_prediction, get_unacknowledged_inputs, resimulate}
use working_for_codex.Netcode.Replay.{predict_all, resimulate-predict_all}
use working_for_codex.Netcode.Rewind.{
  WorldState, HitRequest, LagCompensation, new_compensation, save_world_state, get_world_state_at,
  validate_hit,
}
use working_for_codex.Netcode.Hits.{has_living, validate_hit-valid}
use working_for_codex.Netcode.Ledger.{saved, validated, run, IsTallied, run-new-IsTallied}

abbrev input : ℕ → InputCommand
input n = record {
  sequence = n;
  client_timestamp = 0;
  move_x = 1000;
  move_y = 0;
  aim_radians = 0;
  fire = false;
}

abbrev start : PlayerState ℕ
unfolding fresh_player
start = fresh_player (codes "a")

resimulate-predict_all_example :
    let predicted =
      predict_all 0 16 start ((input 1 ∷ []) ++ (input 2 ∷ input 3 ∷ [])) new_prediction in
    resimulate 16 (resimulate 16 start (input 1 ∷ [])) (get_unacknowledged_inputs 1 predicted.1)
    ≡ predicted.0
resimulate-predict_all_example =
    resimulate-predict_all 0 16 start 1 (input 1 ∷ []) (input 2 ∷ input 3 ∷ []) (omega arith, tt)
      (omega arith, (omega arith, tt)) (omega arith)

abbrev world : WorldState ℕ
unfolding fresh_player
world = record { timestamp = 900; players = fresh_player (codes "b") ∷ []; projectiles = [] }

abbrev request : HitRequest ℕ
request = record {
  shooter_id = codes "a";
  client_timestamp = 900;
  origin_x = 1000;
  origin_y = 0;
  direction_x = 1000;
  direction_y = 0;
}

abbrev kept : LagCompensation ℕ
unfolding new_compensation save_world_state
kept = save_world_state world new_compensation

hit_accepted : (validate_hit request 1000 kept).0.valid ≡ true
unfolding kept world fresh_player validate_hit save_world_state new_compensation same
hit_accepted = refl

validate_hit-valid_example :
    (request.client_timestamp ≤ 1000)
    × (1000 ≤ request.client_timestamp + 200)
    × (w : WorldState ℕ) × (get_world_state_at request.client_timestamp kept ≡ some w)
    × (same (validate_hit request 1000 kept).0.hit_player_id request.shooter_id ≡ false)
    × (has_living (validate_hit request 1000 kept).0.hit_player_id w.players ≡ true)
validate_hit-valid_example = validate_hit-valid request 1000 kept hit_accepted

run-new-IsTallied_example :
    IsTallied (run (saved world ∷ validated request 1000 ∷ []) new_compensation)
run-new-IsTallied_example = run-new-IsTallied (saved world ∷ validated request 1000 ∷ [])
