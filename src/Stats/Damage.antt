-- ===== src/Stats/Damage.antt =====
-- match_stats.cpp: the damage dealt in a match and the damage taken add up to the same.
use working_for_codex.Base.{
  ℕ, ◌+◌, ◌%◌, ◌^◌, ◌≡◌, refl, Bytes, List, [], ◌∷◌, Option, none, some, ltb, bytes_eq, same,
  before, arith, Bool-cases, inl, inr,
}
use working_for_codex.Base.Dict.{Dict, find, put}
use working_for_codex.Game.Player.{PlayerState}
use working_for_codex.Game.Combat.{CombatEventType, hit, death, CombatEvent}
use working_for_codex.Game.Session.{GameSession}
use working_for_codex.Game.Tick.{snapshot}
use working_for_codex.Stats.Profiles.{PlayerMatchStats}
use working_for_codex.Stats.Collector.{
  RunningTotals, no_totals, uint64_of_int, emplace, start_totals, or_none, ensure, dealt, taken,
  killed, some_death, some_kill, add_event, add_events, final_totals, stats_of, all_stats,
  insert_stats, sort_stats, match_name, collect,
}

-- The sum of a number of each entry.
unfoldable pub total : (RunningTotals → ℕ) → Dict Bytes RunningTotals → ℕ
total f [] = 0
total f ((id, t) ∷ m) = f t + total f m

-- A write at a key moves the total by what it moves there.
total-put :
    (f : RunningTotals → ℕ) (id : Bytes) (new : RunningTotals) (m : Dict Bytes RunningTotals)
    → f (no_totals id) ≡ 0
    → total f (put id new m) + f (or_none id (find id m)) ≡ total f m + f new
unfolding total put find
total-put f id new [] z = omega (arith, z)
total-put f id new ((j, t) ∷ m) z = elim (Bool-cases (same j id)) [
  | inl e ↦ rw e (omega arith)
  | inr e ↦ rw e (omega (arith, total-put f id new m z))
]

-- Dealt and taken agree, modulo 2^64.
abbrev pub Balanced : Dict Bytes RunningTotals → Type 0
Balanced m = total (λ t. t.damage_dealt) m % 2 ^ 64 ≡ total (λ t. t.damage_taken) m % 2 ^ 64

total-ensure :
    (f : RunningTotals → ℕ) (id : Bytes) (g : RunningTotals → RunningTotals)
    (m : Dict Bytes RunningTotals) (n : ℕ)
    → f (no_totals id) ≡ 0
    → ((t : RunningTotals) → f (g t) % 2 ^ 64 ≡ (f t + n) % 2 ^ 64)
    → total f (ensure id g m) % 2 ^ 64 ≡ (total f m + n) % 2 ^ 64
unfolding ensure
total-ensure f id g m n z moves =
    let t = or_none id (find id m) in omega (arith, total-put f id (g t) m z, moves t)

add_event-Balanced :
    (k : CombatEventType) (e : CombatEvent) (m : Dict Bytes RunningTotals)
    → Balanced m
    → Balanced (add_event k e m)
unfolding dealt taken killed some_death no_totals
add_event-Balanced hit e m v =
    let n = uint64_of_int e.damage in
    let m' = ensure e.shooter_id (dealt n) m in
    omega (
      arith,
      v,
      total-ensure (λ t. t.damage_dealt) e.shooter_id (dealt n) m n refl (λ t. omega arith),
      total-ensure (λ t. t.damage_taken) e.shooter_id (dealt n) m 0 refl (λ t. omega arith),
      total-ensure (λ t. t.damage_dealt) e.target_id (taken n) m' 0 refl (λ t. omega arith),
      total-ensure (λ t. t.damage_taken) e.target_id (taken n) m' n refl (λ t. omega arith),
    )
add_event-Balanced death e m v =
    let m' = ensure e.shooter_id killed m in
    omega (
      arith,
      v,
      total-ensure (λ t. t.damage_dealt) e.shooter_id killed m 0 refl (λ t. omega arith),
      total-ensure (λ t. t.damage_taken) e.shooter_id killed m 0 refl (λ t. omega arith),
      total-ensure (λ t. t.damage_dealt) e.target_id some_death m' 0 refl (λ t. ground arith),
      total-ensure (λ t. t.damage_taken) e.target_id some_death m' 0 refl (λ t. ground arith),
    )

add_events-Balanced :
    (last : ℕ) (es : List CombatEvent) (m : Dict Bytes RunningTotals)
    → Balanced m
    → Balanced (add_events last es m)
unfolding add_events
add_events-Balanced last [] m v = v
add_events-Balanced last (e ∷ es) m v = elim (Bool-cases (ltb last e.tick)) [
  | inl f ↦ rw f (add_events-Balanced last es m v)
  | inr f ↦
      rw f (add_events-Balanced last es (add_event e.kind e m) (add_event-Balanced e.kind e m v))
]

emplace-Balanced :
    (id : Bytes) (entry : RunningTotals) (o : Option RunningTotals) (m : Dict Bytes RunningTotals)
    → find id m ≡ o
    → entry.damage_dealt ≡ 0
    → entry.damage_taken ≡ 0
    → Balanced m
    → Balanced (emplace id entry o m)
unfolding no_totals
emplace-Balanced id entry (some old) m here d t v = v
emplace-Balanced id entry none m here d t v =
    let by_dealt = total-put (λ k. k.damage_dealt) id entry m refl in
    let by_taken = total-put (λ k. k.damage_taken) id entry m refl in
    omega (arith, v, d, t, rw here at by_dealt, rw here at by_taken)

start_totals-Balanced {ℓ} :
    {D : Type ℓ} (ps : List (PlayerState D)) (m : Dict Bytes RunningTotals)
    → Balanced m
    → Balanced (start_totals ps m)
unfolding start_totals no_totals
start_totals-Balanced [] m v = v
start_totals-Balanced (p ∷ ps) m v =
    start_totals-Balanced ps _
      (emplace-Balanced p.player_id _ (find p.player_id m) m refl refl refl v)

-- The sum of a number of each player's statistics.
unfoldable pub sum_of : (PlayerMatchStats → ℕ) → List PlayerMatchStats → ℕ
sum_of f [] = 0
sum_of f (p ∷ ps) = f p + sum_of f ps

sum-insert :
    (f : PlayerMatchStats → ℕ) (p : PlayerMatchStats) (ps : List PlayerMatchStats)
    → sum_of f (insert_stats p ps) ≡ f p + sum_of f ps
unfolding sum_of insert_stats
sum-insert f p [] = refl
sum-insert f p (q ∷ qs) = elim (Bool-cases (before q.player_id p.player_id)) [
  | inl e ↦ rw e (omega (arith, sum-insert f p qs))
  | inr e ↦ rw e refl
]

sum-sort :
    (f : PlayerMatchStats → ℕ) (ps : List PlayerMatchStats) → sum_of f (sort_stats ps) ≡ sum_of f ps
unfolding sum_of sort_stats
sum-sort f [] = refl
sum-sort f (p ∷ ps) = omega (arith, sum-insert f p (sort_stats ps), sum-sort f ps)

sum-all_stats :
    (f : RunningTotals → ℕ) (g : PlayerMatchStats → ℕ) (name : Bytes) (m : Dict Bytes RunningTotals)
    → ((t : RunningTotals) → g (stats_of name t) ≡ f t)
    → sum_of g (all_stats name m) ≡ total f m
unfolding sum_of all_stats total
sum-all_stats f g name [] same_number = refl
sum-all_stats f g name ((id, t) ∷ m) same_number =
    omega (arith, same_number t, sum-all_stats f g name m same_number)

-- Over all players of a collected match the damage dealt and the damage taken add up to the same,
-- modulo 2^64, whatever the combat log holds and wherever the match ends in it.
pub collect-damage {ℓ} :
    {D : Type ℓ} (e : CombatEvent) (s : GameSession D) (completed_at : ℕ)
    → sum_of (λ p. p.damage_dealt) (collect e s completed_at).player_stats % 2 ^ 64
      ≡ sum_of (λ p. p.damage_taken) (collect e s completed_at).player_stats % 2 ^ 64
unfolding collect final_totals some_kill some_death total
collect-damage e s completed_at =
    let name = match_name e in
    let m0 = start_totals (snapshot s) [] in
    let m1 = add_events e.tick s.combat_log.events m0 in
    let m2 = ensure e.shooter_id some_kill m1 in
    let started =
      add_events-Balanced e.tick s.combat_log.events m0
        (start_totals-Balanced (snapshot s) [] refl) in
    omega (
      arith,
      started,
      total-ensure (λ t. t.damage_dealt) e.shooter_id some_kill m1 0 refl (λ t. ground arith),
      total-ensure (λ t. t.damage_taken) e.shooter_id some_kill m1 0 refl (λ t. ground arith),
      total-ensure (λ t. t.damage_dealt) e.target_id some_death m2 0 refl (λ t. ground arith),
      total-ensure (λ t. t.damage_taken) e.target_id some_death m2 0 refl (λ t. ground arith),
      sum-sort (λ p. p.damage_dealt) (all_stats name (final_totals e s)),
      sum-sort (λ p. p.damage_taken) (all_stats name (final_totals e s)),
      sum-all_stats (λ t. t.damage_dealt) (λ p. p.damage_dealt) name (final_totals e s) (λ t. refl),
      sum-all_stats (λ t. t.damage_taken) (λ p. p.damage_taken) name (final_totals e s) (λ t. refl),
    )
