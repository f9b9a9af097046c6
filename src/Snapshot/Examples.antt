-- ===== src/Snapshot/Examples.antt =====
-- snapshot_manager.cpp run on two players and three snapshots.
use working_for_codex.Base.{
  ℕ, ◌≡◌, refl, ◌++◌, Bytes, List, [], ◌∷◌, none, some, codes, length, ok, take, arith, same,
}
use working_for_codex.Base.Grid.{grid, grid-HasFloats}
use working_for_codex.Game.Player.{PlayerState, fresh_player}
use working_for_codex.Snapshot.Types.{Snapshot, Delta, serialize, deserialize, estimated_size}
use working_for_codex.Snapshot.Wire.{IsSendable, sent, deserialize-serialize}
use working_for_codex.Snapshot.Size.{HasShortIds, length-serialize}
use working_for_codex.Snapshot.Manager.{
  get_snapshot, get_snapshot_at, create, save_snapshot, place, stored, find_from, find_index, blank,
}
use working_for_codex.Snapshot.History.{save_all}
use working_for_codex.Snapshot.Recall.{
  first_with, view_from, get_snapshot-save_all, get_snapshot_at-save_all,
}
use working_for_codex.Snapshot.Deltas.{
  calculate_delta, apply_delta, find_player, flags_against, compare_player_states, apart,
}
use working_for_codex.Snapshot.Patch.{changed}
use working_for_codex.Snapshot.Tracking.{Tracks, IsTarget, calculate_delta-Tracks}

abbrev player : Bytes → ℕ → PlayerState ℕ
unfolding fresh_player
player id x = record (fresh_player id) { x = x }

abbrev first : Snapshot ℕ
unfolding fresh_player
first = record {
  sequence = 1;
  timestamp = 1000;
  players = player (codes "a") 5000 ∷ [];
  projectiles = [];
}

abbrev second : Snapshot ℕ
unfolding fresh_player
second = record {
  sequence = 2;
  timestamp = 1016;
  players = player (codes "a") 5200 ∷ player (codes "b") 70 ∷ [];
  projectiles =
      record { id = 0; owner_id = codes "b"; x = 1; y = 2; velocity_x = 3; velocity_y = 4 } ∷ [];
}

abbrev saved : List (Snapshot ℕ)
unfolding fresh_player
saved = second ∷ first ∷ []

second-IsSendable : IsSendable second
unfolding second player fresh_player
second-IsSendable = record {
  sequence_fits = omega arith;
  timestamp_fits = omega arith;
  few_players = omega arith;
  healths_fit = (omega arith, (omega arith, tt));
  few_projectiles = omega arith;
  projectiles_fit = (
    record {
      id_fits = omega arith;
      x_fits = omega arith;
      y_fits = omega arith;
      velocity_x_fits = omega arith;
      velocity_y_fits = omega arith;
    },
    tt,
  );
}

deserialize-serialize_example : deserialize (serialize second ++ 7 ∷ []) ≡ ok (sent second)
deserialize-serialize_example =
    deserialize-serialize grid-HasFloats second (7 ∷ []) second-IsSendable

second-HasShortIds : HasShortIds second
unfolding second player fresh_player
second-HasShortIds = record {
  players_short = (omega arith, (omega arith, tt));
  owners_short = (omega arith, tt);
}

length-serialize_example : length (serialize second) ≡ estimated_size second
length-serialize_example = length-serialize second second-HasShortIds

get_snapshot-save_all_example : get_snapshot 1 (save_all saved) ≡ first_with 1 (take 64 saved)
get_snapshot-save_all_example = get_snapshot-save_all 1 saved

get_snapshot_at-save_all_example :
    get_snapshot_at 1008 (save_all saved) ≡ view_from 1008 none (take 64 saved)
get_snapshot_at-save_all_example = get_snapshot_at-save_all 1008 saved

found_first : get_snapshot 1 (save_all saved) ≡ some first
unfolding get_snapshot find_index find_from save_all save_snapshot place stored blank create first
    second
found_first = refl

found_second : get_snapshot 2 (save_all saved) ≡ some second
unfolding get_snapshot find_index find_from save_all save_snapshot place stored blank create first
    second
found_second = refl

second-IsTarget : IsTarget first second
unfolding first second player fresh_player find_player same changed flags_against
    compare_player_states apart
second-IsTarget = record {
  distinct = (refl, (refl, tt));
  short = (omega arith, (omega arith, tt));
  healths_fit = (omega arith, (omega arith, tt));
  few = omega arith;
}

calculate_delta-Tracks_example :
    (d : Delta) × (calculate_delta 1 2 (save_all saved) ≡ some d)
    × (result : Snapshot ℕ) × (apply_delta first d ≡ ok result)
    × Tracks first second result
calculate_delta-Tracks_example =
    calculate_delta-Tracks grid-HasFloats (save_all saved) 1 2 first second found_first found_second
      second-IsTarget
