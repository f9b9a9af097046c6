-- ===== src/Game/Examples.antt =====
-- game_session.cpp run on two players, one of whom shoots.
use working_for_codex.Base.{ℕ, ◌+◌, ◌%◌, ◌^◌, ◌≤◌, ◌≡◌, List, [], ◌∷◌, true, false, codes, length}
use working_for_codex.Base.Grid.{grid}
use working_for_codex.Game.Session.{MovementInput, GameSession, create}
use working_for_codex.Game.Tick.{tick}
use working_for_codex.Game.Invariant.{IsSession}
use working_for_codex.Game.Inputs.{Call, upserted, given, ticked, run, run-create-IsSession}
use working_for_codex.Game.Tally.{tick-counts}

abbrev shot : MovementInput ℕ
shot = record {
  sequence = 1;
  up = false;
  down = false;
  left = false;
  right = true;
  mouse_x = 1000;
  mouse_y = 0;
  fire = true;
}

abbrev calls : List (Call ℕ)
calls = upserted (codes "a") ∷ upserted (codes "b") ∷ ticked 1 200 ∷ given (codes "a") shot 16 ∷ []

run-create-IsSession_example : IsSession (run calls create)
run-create-IsSession_example = run-create-IsSession calls

abbrev ready : GameSession ℕ
ready = run calls create

tick-counts_example :
    (hits : ℕ) × (deaths : ℕ) × ((tick 2 16 ready).projectiles_hits_total % 2 ^ 64
      ≡ (ready.projectiles_hits_total + hits) % 2 ^ 64)
    × ((tick 2 16 ready).players_dead_total % 2 ^ 64 ≡ (ready.players_dead_total + deaths) % 2 ^ 64)
    × (length (tick 2 16 ready).pending_deaths ≡ length ready.pending_deaths + deaths)
    × (deaths ≤ hits)
    × (length (tick 2 16 ready).projectiles + hits ≤ length ready.projectiles)
tick-counts_example = tick-counts 2 16 ready
