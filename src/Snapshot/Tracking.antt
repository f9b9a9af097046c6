-- ===== src/Snapshot/Tracking.antt =====
-- CalculateDelta followed by ApplyDelta in snapshot_manager.cpp: the base becomes the target.
use working_for_codex.Base.{
  Each, ℕ, ◌+◌, ◌*◌, ◌<◌, ◌≡◌, ◌⊎◌, inl, inr, refl, ap, sym, ◌∙◌, Bool, true, false, not, Bytes,
  Option, none, some, length, ok, arith, Bool-cases,
}
use working_for_codex.Base.Int.{beq_ℤ, beq_ℤ_iff}
use working_for_codex.Base.Real.{narrow, Real, HasFloats}
use working_for_codex.Game.Player.{PlayerState, fresh_player}
use working_for_codex.Packet.Buffer.{nonzero, bit_of}
use working_for_codex.Packet.RoundTrip.{IsInt32}
use working_for_codex.Snapshot.Types.{Snapshot, Delta}
use working_for_codex.Snapshot.Size.{IsShort}
use working_for_codex.Snapshot.Manager.{
  SnapshotManager, find_index, stored, stored_at, get_snapshot,
}
use working_for_codex.Snapshot.Deltas.{
  flag, bool_beq, or_else, find_player, assign, apart, compare_player_states, flags_against,
  changes_between, calculate_delta, delta_of, apply_delta,
}
use working_for_codex.Snapshot.Changes.{fields_of, only_if}
use working_for_codex.Snapshot.Patch.{changed, apply_all, apply_delta-changes_between}
use working_for_codex.Snapshot.Follow.{Distinct, patched, find-apply_all, find_player-id}

sum_of : Bool → Bool → Bool → Bool → Bool → ℕ
sum_of a b c d e = bit_of a + bit_of b * 2 + bit_of c * 4 + bit_of d * 8 + bit_of e * 16

flag-sum :
    (a b c d e : Bool)
    → (flag (sum_of a b c d e) 0 ≡ a)
      × (flag (sum_of a b c d e) 1 ≡ b)
      × (flag (sum_of a b c d e) 2 ≡ c)
      × (flag (sum_of a b c d e) 3 ≡ d)
      × (flag (sum_of a b c d e) 4 ≡ e)
unfolding sum_of
flag-sum a b c d e = ground arith

module _ {ℓ} {D : Type ℓ} ⦃r : Real D⦄ where
  -- A player against the target: a coordinate is the target's as a float, or one that the code does
  -- not tell apart from the target's.
  pub record Follows (p q : PlayerState D) : Type ℓ where
    pub same_id : q.player_id ≡ p.player_id
    pub x_near : (q.x ≡ narrow p.x) ⊎ (apart q.x p.x ≡ false)
    pub y_near : (q.y ≡ narrow p.y) ⊎ (apart q.y p.y ≡ false)
    pub facing_near :
        (q.facing_radians ≡ narrow p.facing_radians)
        ⊎ (apart q.facing_radians p.facing_radians ≡ false)
    pub same_health : q.health ≡ p.health
    pub same_life : q.is_alive ≡ p.is_alive

  near :
      (b : Bool) (x y : D)
      → apart x y ≡ b
      → (or_else (only_if b (narrow y)) x ≡ narrow y)
        ⊎ (apart (or_else (only_if b (narrow y)) x) y ≡ false)
  near true x y e = inl refl
  near false x y e = inr e

  assign-Follows :
      (base p : PlayerState D)
      → p.player_id ≡ base.player_id
      → Follows p (assign (fields_of (compare_player_states base p) p) base)
  unfolding assign fields_of compare_player_states sum_of
  assign-Follows base p named =
      let (f0, f1, f2, f3, f4) =
        flag-sum (apart base.x p.x) (apart base.y p.y) (apart base.facing_radians p.facing_radians)
          (not (beq_ℤ base.health p.health)) (not (bool_beq base.is_alive p.is_alive)) in
      record {
        same_id = sym named;
        x_near = rw f0 (near (apart base.x p.x) base.x p.x refl);
        y_near = rw f1 (near (apart base.y p.y) base.y p.y refl);
        facing_near = rw f2 (
            near (apart base.facing_radians p.facing_radians) base.facing_radians p.facing_radians
              refl);
        same_health = rw f3 (ground (arith, beq_ℤ_iff base.health p.health));
        same_life = rw f4 (ground arith);
      }

  assign-fresh-Follows :
      (p : PlayerState D) → Follows p (assign (fields_of 255 p) (fresh_player p.player_id))
  unfolding assign fields_of fresh_player
  assign-fresh-Follows p = record {
    same_id = refl;
    x_near = inl refl;
    y_near = inl refl;
    facing_near = inl refl;
    same_health = refl;
    same_life = refl;
  }

  -- Nothing is flagged.
  assign-zero :
      (p q : PlayerState D) (flags : ℕ) → nonzero flags ≡ false → assign (fields_of flags p) q ≡ q
  unfolding assign fields_of
  assign-zero p q flags e = let z : flags ≡ 0 = ground arith in rw z refl

  patched-Follows :
      (base : Option (PlayerState D)) (p : PlayerState D) (id : Bytes)
      → ((b : PlayerState D) → base ≡ some b → b.player_id ≡ p.player_id)
      → (q : PlayerState D) × (patched base base (some p) ≡ some q) × Follows p q
  unfolding patched flags_against
  patched-Follows none p id named =
      (assign (fields_of 255 p) (fresh_player p.player_id), refl, assign-fresh-Follows p)
  patched-Follows (some b) p id named =
      let flags = compare_player_states b p in
      let follows = assign-Follows b p (sym (named b refl)) in
      (
        assign (fields_of flags p) b,
        elim (Bool-cases (nonzero flags)) [
          | inl e ↦ rw e refl
          | inr e ↦ rw e (ap some (sym (assign-zero p b flags e)))
        ],
        follows,
      )

  -- What ApplyDelta makes of the base: the target's players follow the target, the others stay.
  pub record Tracks (base target result : Snapshot D) : Type ℓ where
    pub follows :
        (id : Bytes) (p : PlayerState D)
        → find_player id target.players ≡ some p
        → (q : PlayerState D) × (find_player id result.players ≡ some q) × Follows p q
    pub stays :
        (id : Bytes)
        → find_player id target.players ≡ none
        → find_player id result.players ≡ find_player id base.players

  -- The target's ids are distinct and at most 255 bytes, its healths fit and fewer than 256 of its
  -- players have changed.
  pub record IsTarget (base target : Snapshot D) : Type ℓ where
    pub distinct : Distinct target.players
    pub short : Each (λ (p : PlayerState D). IsShort p.player_id) target.players
    pub healths_fit : Each (λ (p : PlayerState D). IsInt32 p.health) target.players
    pub few : length (changed base.players target.players) < 256

  patched-none : (b n : Option (PlayerState D)) → patched b n none ≡ n
  unfolding patched
  patched-none b n = refl

  applied-Tracks :
      (base target : Snapshot D) (sequence : ℕ)
      → IsTarget base target
      → Tracks base target (record base {
        sequence = sequence;
        players = apply_all (changed base.players target.players) base.players;
      })
  applied-Tracks base target sequence v = record {
    follows = λ id p e.
        let found = find-apply_all id base.players target.players base.players v.distinct v.short in
        let name = find_player-id id target.players p e in
        let (q, made, follows) =
          patched-Follows (find_player id base.players) p id
            (λ b f. find_player-id id base.players b f ∙ sym name) in
        (
          q,
          found ∙ ap (patched (find_player id base.players) (find_player id base.players)) e ∙ made,
          follows,
        );
    stays = λ id e.
        find-apply_all id base.players target.players base.players v.distinct v.short
        ∙ ap (patched (find_player id base.players) (find_player id base.players)) e
        ∙ patched-none _ _;
  }

  delta_of-Tracks :
      (floats : HasFloats D) (m : SnapshotManager D) (base_seq target_seq : ℕ)
      (base target : Snapshot D) (i j : Option ℕ)
      → stored_at m i ≡ some base
      → stored_at m j ≡ some target
      → IsTarget base target
      → (d : Delta) × (delta_of base_seq target_seq m i j ≡ some d)
        × (result : Snapshot D) × (apply_delta base d ≡ ok result)
        × Tracks base target result
  delta_of-Tracks floats m base_seq target_seq base target none j eb et v = absurd cc
  delta_of-Tracks floats m base_seq target_seq base target (some i) none eb et v = absurd cc
  delta_of-Tracks floats m base_seq target_seq base target (some i) (some j) eb et v =
      let ei : stored m i ≡ base = cc in
      let ej : stored m j ≡ target = cc in
      (
        record {
          base_sequence = base_seq;
          target_sequence = target_seq;
          changes = changes_between base target;
        },
        rw (ei, ej) refl,
        record base {
          sequence = target_seq;
          players = apply_all (changed base.players target.players) base.players;
        },
        apply_delta-changes_between floats base target base_seq target_seq v.healths_fit v.few,
        applied-Tracks base target target_seq v,
      )

  -- For two snapshots that the manager has, where the bits of a float fit in 32, the target's ids are
  -- distinct and at most 255 bytes long, its healths fit in 32 bits and fewer than 256 of its players
  -- have changed: a delta is calculated and applies to the base without reading past its end, every
  -- player of the target is then there with the target's health and life and with coordinates that
  -- are the target's as floats or not told apart from them, and every other player stays as in the
  -- base.
  pub calculate_delta-Tracks :
      (floats : HasFloats D) (m : SnapshotManager D) (base_seq target_seq : ℕ)
      (base target : Snapshot D)
      → get_snapshot base_seq m ≡ some base
      → get_snapshot target_seq m ≡ some target
      → IsTarget base target
      → (d : Delta) × (calculate_delta base_seq target_seq m ≡ some d)
        × (result : Snapshot D) × (apply_delta base d ≡ ok result)
        × Tracks base target result
  unfolding calculate_delta get_snapshot
  calculate_delta-Tracks floats m base_seq target_seq base target eb et v =
      delta_of-Tracks floats m base_seq target_seq base target (find_index base_seq m)
        (find_index target_seq m) eb et v
