-- ===== src/Matching/Metrics.antt =====
-- The counters of matchmaker.cpp, which wrap around at 2 ^ 64.
use working_for_codex.Base.{
  ℕ, suc, ◌+◌, ◌*◌, ◌%◌, ◌^◌, ◌≡◌, inl, inr, refl, sym, ap, ◌∙◌, Bool, true, false, Bytes, List, [],
  ◌∷◌, arith, Bool-cases, Option-cases, length,
}
use working_for_codex.Base.Int.{ℤ, pos, leb_ℤ}
use working_for_codex.Matching.Request.{MatchRequest, wait_seconds}
use working_for_codex.Matching.Queue.{QueuedPlayer, fetch_ordered}
use working_for_codex.Matching.Maker.{
  Matchmaker, new_matchmaker, increment, enqueue, cancel, count_wait, wait_buckets, observe_wait,
  settle, use_pair, choose_partner, match_players, run_matching,
}

abbrev pub sum : List ℕ → ℕ
sum [] = 0
sum (n ∷ ns) = n + sum ns

abbrev pub one_if : Bool → ℕ
one_if true = 1
one_if false = 0

-- Each wait is in one bucket or over the last, and each match has two waits.
pub record IsCounted (m : Matchmaker) : Type 0 where
  pub bucketed : (sum m.wait_bucket_counts + m.wait_overflow_count) % 2 ^ 64 ≡ m.wait_count
  pub six : length m.wait_bucket_counts ≡ 6
  pub paired : 2 * m.matches_created % 2 ^ 64 ≡ m.wait_count
  pub numbered : m.match_counter ≡ m.matches_created

count_wait-sum :
    (wait : ℤ) (bs counts : List ℕ)
    → length bs ≡ length counts
    → (sum (count_wait wait bs counts).0 + one_if (count_wait wait bs counts).1) % 2 ^ 64
      ≡ (sum counts + 1) % 2 ^ 64
unfolding count_wait increment
count_wait-sum wait [] [] e = refl
count_wait-sum wait [] (c ∷ cs) e = absurd (omega arith)
count_wait-sum wait (b ∷ bs) [] e = absurd (omega arith)
count_wait-sum wait (b ∷ bs) (c ∷ cs) e =
    let later = count_wait-sum wait bs cs (omega arith) in
    elim (Bool-cases (leb_ℤ wait (pos b))) [
      | inl h ↦ rw h (omega arith)
      | inr h ↦ rw h (omega (arith, later))
    ]

count_wait-length :
    (wait : ℤ) (bs counts : List ℕ)
    → length bs ≡ length counts
    → length (count_wait wait bs counts).0 ≡ length counts
unfolding count_wait
count_wait-length wait [] counts e = refl
count_wait-length wait (b ∷ bs) [] e = absurd (omega arith)
count_wait-length wait (b ∷ bs) (c ∷ cs) e =
    let later = count_wait-length wait bs cs (omega arith) in
    elim (Bool-cases (leb_ℤ wait (pos b))) [ inl h ↦ rw h refl | inr h ↦ rw h (ap suc later) ]

-- The part of it that holds between the two waits of a match.
record Buckets (m : Matchmaker) : Type 0 where
  bucketed : (sum m.wait_bucket_counts + m.wait_overflow_count) % 2 ^ 64 ≡ m.wait_count
  six : length m.wait_bucket_counts ≡ 6

observe_wait-Buckets : (wait : ℤ) (m : Matchmaker) → Buckets m → Buckets (observe_wait wait m)
unfolding observe_wait increment
observe_wait-Buckets wait m v =
    let counts = count_wait wait wait_buckets m.wait_bucket_counts in
    let total = count_wait-sum wait wait_buckets m.wait_bucket_counts (sym v.six) in
    let many = count_wait-length wait wait_buckets m.wait_bucket_counts (sym v.six) in
    record {
      bucketed = elim (Bool-cases counts.1) [
        | inl h ↦ rw h (let t = rw h at total in omega (arith, t, v.bucketed))
        | inr h ↦ rw h (let t = rw h at total in omega (arith, t, v.bucketed))
      ];
      six = many ∙ v.six;
    }

settle-IsCounted :
    (now : ℕ) (a b : MatchRequest) (m : Matchmaker) → IsCounted m → IsCounted (settle now a b m).0
unfolding settle observe_wait increment
settle-IsCounted now a b m v =
    let before : Buckets m = record { bucketed = v.bucketed; six = v.six } in
    let one = observe_wait-Buckets (wait_seconds now a) m before in
    let two = observe_wait-Buckets (wait_seconds now b) (observe_wait (wait_seconds now a) m) one in
    record {
      bucketed = two.bucketed;
      six = two.six;
      paired = omega (arith, v.paired);
      numbered = ap (λ n. (n + 1) % 2 ^ 64) v.numbered;
    }

match_players-IsCounted :
    (now : ℕ) (used : List Bytes) (ps : List QueuedPlayer) (m : Matchmaker)
    → IsCounted m
    → IsCounted (match_players now used ps m).0
unfolding match_players
match_players-IsCounted now used [] m v = v
match_players-IsCounted now used (p ∷ ps) m v = elim (Option-cases (choose_partner now used p ps)) [
  | inl e ↦ rw (e, match_players) (match_players-IsCounted now used ps m v)
  | inr (b, e) ↦
      rw (e, match_players)
        (match_players-IsCounted now (use_pair p.request b used) ps (settle now p.request b m).0
          (settle-IsCounted now p.request b m v))
]

-- The calls that change the matchmaker.
pub data Call : Type 0 where
  enqueued : MatchRequest → Call
  cancelled : Bytes → Call
  matched : ℕ → Call

unfoldable pub run : Matchmaker → List Call → Matchmaker
run m [] = m
run m (enqueued r ∷ cs) = run (enqueue r m) cs
run m (cancelled p ∷ cs) = run (cancel p m).0 cs
run m (matched now ∷ cs) = run (run_matching now m).0 cs

run-IsCounted : (m : Matchmaker) (cs : List Call) → IsCounted m → IsCounted (run m cs)
unfolding run enqueue cancel run_matching
run-IsCounted m [] v = v
run-IsCounted m (enqueued r ∷ cs) v =
    run-IsCounted (enqueue r m) cs
      (record { bucketed = v.bucketed; six = v.six; paired = v.paired; numbered = v.numbered })
run-IsCounted m (cancelled p ∷ cs) v =
    run-IsCounted (cancel p m).0 cs
      (record { bucketed = v.bucketed; six = v.six; paired = v.paired; numbered = v.numbered })
run-IsCounted m (matched now ∷ cs) v =
    let w = match_players-IsCounted now [] (fetch_ordered m.queue) m v in
    run-IsCounted (run_matching now m).0 cs
      (record { bucketed = w.bucketed; six = w.six; paired = w.paired; numbered = w.numbered })

-- After any history of calls the histogram counts every wait once, each match has counted two
-- waits, and the last match has the number of the matches made, all modulo 2 ^ 64.
pub run-new-IsCounted : (cs : List Call) → IsCounted (run new_matchmaker cs)
unfolding new_matchmaker
run-new-IsCounted cs =
    run-IsCounted new_matchmaker cs
      (record { bucketed = omega arith; six = omega arith; paired = omega arith; numbered = refl })
