-- ===== src/Matching/Round.antt =====
-- The rounds of matchmaker.cpp: their matches, and the channel that the matches go to.
use working_for_codex.Base.{Bytes}
use working_for_codex.Matching.Request.{MatchRequest}
use working_for_codex.Matching.Maker.{Match}

abbrev pub pair_ids : MatchRequest × MatchRequest → Bytes × Bytes
pair_ids (a, b) = (a.player_id, b.player_id)

abbrev pub players_of : Match → Bytes × Bytes
players_of x = x.players
