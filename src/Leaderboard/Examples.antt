-- ===== src/Leaderboard/Examples.antt =====
-- leaderboard_store.cpp run on two players.
use working_for_codex.Base.{◌≡◌, refl, codes, [], ◌∷◌, some, get_elem?, List, same, bytes_eq}
use working_for_codex.Base.Int.{pos}
use working_for_codex.Base.Dict.{find, put}
use working_for_codex.Leaderboard.Store.{empty_store, upsert, top_n, remove}
use working_for_codex.Leaderboard.Consistent.{
  IsConsistent, Call, upserted, removed, run, run-empty-IsConsistent,
}

abbrev calls : List Call
calls =
    upserted (codes "a") (pos 1200)
    ∷ upserted (codes "b") (pos 1300)
    ∷ upserted (codes "a") (pos 1400)
    ∷ removed (codes "c")
    ∷ []

run-empty-IsConsistent_example : IsConsistent (run empty_store calls)
run-empty-IsConsistent_example = run-empty-IsConsistent calls

first : get_elem? (top_n 5 (run empty_store calls)) 0 ≡ some (codes "a", pos 1400)
unfolding top_n run empty_store upsert find put same remove
first = refl
