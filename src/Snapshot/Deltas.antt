-- ===== src/Snapshot/Deltas.antt =====
-- The deltas of snapshot_manager.cpp: ComparePlayerStates, CalculateDelta and ApplyDelta.
use working_for_codex.Base.{
  ℕ, zero, suc, ◌+◌, ◌*◌, ◌/◌, ◌%◌, ◌^◌, Bool, true, false, not, Bytes, List, [], ◌∷◌, ◌++◌, Option,
  none, some, if◌then◌else◌, ltb, length, Result, ok, err, bytes_eq, same,
}
use working_for_codex.Base.Int.{ℤ, beq_ℤ}
use working_for_codex.Base.Real.{narrow, Real}
use working_for_codex.Game.Player.{PlayerState, fresh_player}
use working_for_codex.Packet.Buffer.{
  Error, write_uint8, write_uint32_be, write_float, write_string, Reader, pure, ◌>>=◌, read_uint8,
  read_uint32_be, read_float, read_string, uint32_of_int, int_of_uint32, bit_of, nonzero,
}
use working_for_codex.Snapshot.Types.{Snapshot, Delta}
use working_for_codex.Snapshot.Manager.{SnapshotManager, find_index, stored}

abbrev pub bool_beq : Bool → Bool → Bool
bool_beq true b = b
bool_beq false b = not b

-- `flags & (1 << k)`.
abbrev pub flag : ℕ → ℕ → Bool
flag flags k = nonzero (flags / 2 ^ k % 2)

-- The fields read for a change, with `none` for one whose flag is not set.
pub record Fields {ℓ} (D : Type ℓ) : Type ℓ where
  pub x : Option D
  pub y : Option D
  pub facing_radians : Option D
  pub health : Option ℤ
  pub is_alive : Option Bool

abbrev pub or_else {ℓ} : {A : Type ℓ} → Option A → A → A
or_else none a = a
or_else (some b) a = b

abbrev pub read_if {ℓ} : {A : Type ℓ} → Bool → Reader A → Reader (Option A)
read_if true read = read >>= λ a. pure (some a)
read_if false read = pure none

module _ {ℓ} {D : Type ℓ} where
  -- `if (p.player_id == id) { player = &p; break; }`
  unfoldable pub find_player : Bytes → List (PlayerState D) → Option (PlayerState D)
  find_player id [] = none
  find_player id (p ∷ ps) = if same p.player_id id then some p else find_player id ps

  unfoldable pub assign : Fields D → PlayerState D → PlayerState D
  assign f p = record p {
    x = or_else f.x p.x;
    y = or_else f.y p.y;
    facing_radians = or_else f.facing_radians p.facing_radians;
    health = or_else f.health p.health;
    is_alive = or_else f.is_alive p.is_alive;
  }

module _ {ℓ} {D : Type ℓ} ⦃r : Real D⦄ where
  -- `std::abs(a - b) > EPSILON`, where EPSILON is 0.001f.
  unfoldable pub apart : D → D → Bool
  unfolding narrow
  apart a b = r.less (narrow (r.ratio 1 1000)) (r.abs (r.sub a b))

  -- The flags are different bits, so that `|=` adds them.
  unfoldable pub compare_player_states : PlayerState D → PlayerState D → ℕ
  unfolding apart
  compare_player_states base target =
      bit_of (apart base.x target.x)
      + bit_of (apart base.y target.y) * 2
      + bit_of (apart base.facing_radians target.facing_radians) * 4
      + bit_of (not (beq_ℤ base.health target.health)) * 8
      + bit_of (not (bool_beq base.is_alive target.is_alive)) * 16

  -- A changed player: the id, the flags and the fields that the flags name.
  unfoldable pub write_change : Bytes → ℕ → PlayerState D → Bytes
  unfolding write_uint8 write_uint32_be write_float write_string uint32_of_int
  write_change buffer flags p =
      let b0 = write_uint8 (write_string buffer p.player_id) flags in
      let b1 = if flag flags 0 then write_float b0 (r.to_bits p.x) else b0 in
      let b2 = if flag flags 1 then write_float b1 (r.to_bits p.y) else b1 in
      let b3 = if flag flags 2 then write_float b2 (r.to_bits p.facing_radians) else b2 in
      let b4 = if flag flags 3 then write_uint32_be b3 (uint32_of_int p.health) else b3 in
      if flag flags 4 then write_uint8 b4 (bit_of p.is_alive) else b4

  -- The flags of a target player: 0xFF for one that the base does not have.
  unfoldable pub flags_against : Option (PlayerState D) → PlayerState D → ℕ
  unfolding compare_player_states
  flags_against none target = 255
  flags_against (some base) target = compare_player_states base target

  -- The loop over the target's players, with the `uint8_t` count and the bytes so far.
  unfoldable pub collect_changes :
      List (PlayerState D) → List (PlayerState D) → ℕ × Bytes → ℕ × Bytes
  unfolding find_player flags_against write_change
  collect_changes base [] (count, bytes) = (count, bytes)
  collect_changes base (p ∷ ps) (count, bytes) =
      let flags = flags_against (find_player p.player_id base) p in
      let kept = collect_changes base ps (count, bytes) in
      let more = collect_changes base ps ((count + 1) % 256, write_change bytes flags p) in
      if nonzero flags then more else kept

  unfoldable pub changes_between : Snapshot D → Snapshot D → Bytes
  unfolding collect_changes write_uint8
  changes_between base target =
      let (count, bytes) = collect_changes base.players target.players (0, []) in
      write_uint8 [] count ++ bytes

  abbrev pub delta_of : ℕ → ℕ → SnapshotManager D → Option ℕ → Option ℕ → Option Delta
  delta_of base_seq target_seq m (some i) (some j) = some (record {
    base_sequence = base_seq;
    target_sequence = target_seq;
    changes = changes_between (stored m i) (stored m j);
  })
  delta_of base_seq target_seq m _ _ = none

  unfoldable pub calculate_delta : ℕ → ℕ → SnapshotManager D → Option Delta
  unfolding find_index
  calculate_delta base_seq target_seq m =
      delta_of base_seq target_seq m (find_index base_seq m) (find_index target_seq m)

  unfoldable pub read_fields : ℕ → Reader (Fields D)
  unfolding read_float read_uint32_be read_uint8 int_of_uint32
  read_fields flags = do
    x ← read_if (flag flags 0) (read_float >>= λ b. pure (r.of_bits b))
    y ← read_if (flag flags 1) (read_float >>= λ b. pure (r.of_bits b))
    facing_radians ← read_if (flag flags 2) (read_float >>= λ b. pure (r.of_bits b))
    health ← read_if (flag flags 3) (read_uint32_be >>= λ v. pure (int_of_uint32 v))
    is_alive ← read_if (flag flags 4) (read_uint8 >>= λ v. pure (nonzero v))
    pure (record {
      x = x;
      y = y;
      facing_radians = facing_radians;
      health = health;
      is_alive = is_alive;
    })

  -- The fields go to the first player with the id, or to a new one at the end.
  unfoldable pub apply_change : Bytes → Fields D → List (PlayerState D) → List (PlayerState D)
  unfolding fresh_player assign
  apply_change id f [] = assign f (fresh_player id) ∷ []
  apply_change id f (p ∷ ps) =
      if same p.player_id id then assign f p ∷ ps else p ∷ apply_change id f ps

  unfoldable pub read_change : List (PlayerState D) → Reader (List (PlayerState D))
  unfolding read_string read_uint8 read_fields apply_change
  read_change players = do
    player_id ← read_string
    flags ← read_uint8
    fields ← read_fields flags
    pure (apply_change player_id fields players)

  -- `for (i = 0; i < changed_count && offset < delta.changes.size(); ++i)`.
  unfoldable pub read_changes : ℕ → List (PlayerState D) → Reader (List (PlayerState D))
  unfolding read_change
  read_changes zero players payload offset = ok (players, offset)
  read_changes (suc n) players payload offset =
      let more = (read_change players >>= read_changes n) payload offset in
      if ltb offset (length payload) then more else ok (players, offset)

  abbrev pub with_players :
      Snapshot D → Result Error (List (PlayerState D) × ℕ) → Result Error (Snapshot D)
  with_players result (ok (players, offset)) = ok (record result { players = players })
  with_players result (err e) = err e

  unfoldable pub apply_delta : Snapshot D → Delta → Result Error (Snapshot D)
  unfolding read_uint8 read_changes
  apply_delta base d =
      let result = record base { sequence = d.target_sequence } in
      let changed = read_uint8 >>= λ count. read_changes count base.players in
      elim d.changes [ [] ↦ ok result | _ ∷ _ ↦ with_players result (changed d.changes 0) ]
