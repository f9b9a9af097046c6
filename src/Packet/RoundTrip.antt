-- ===== src/Packet/RoundTrip.antt =====
-- packet_types.cpp: each `Deserialize` undoes its `Serialize`.
use working_for_codex.Base.{
  ℕ, ◌+◌, ◌/◌, ◌^◌, ◌<◌, ◌≡◌, refl, ap, ap₂, subst, Bool, true, false, Bytes, ◌++◌, length, take,
  ok, err, arith, append_assoc, append-nil, length-append,
}
use working_for_codex.Base.Int.{ℤ, pos, negsuc}
use working_for_codex.Packet.Buffer.{
  underflow, Reader, uint32_of_int, int_of_uint32, bit_of, nonzero,
}
use working_for_codex.Packet.Types.{
  PacketHeader, ConnectPacket, ConnectAckPacket, InputCommand, PlayerSnapshot, ProjectileSnapshot,
  GameEvent, serialize_header, deserialize_header, read_header, serialize_connect, read_connect,
  deserialize_connect, serialize_connect_ack, read_connect_ack, deserialize_connect_ack,
  serialize_input, read_input, deserialize_input, serialize_player, deserialize_player,
  serialize_projectile, deserialize_projectile, serialize_event, read_event, deserialize_event,
}
use working_for_codex.Packet.Codec.{
  Codec, Codec-pure, Codec-bind, Codec-uint8, Codec-uint16, Codec-uint32, Codec-uint64,
  Codec-string, clipped, drop-append,
}

-- The ranges of the integer fields.
abbrev pub IsU8 : ℕ → Type 0
IsU8 v = v < 2 ^ 8

abbrev pub IsU16 : ℕ → Type 0
IsU16 v = v < 2 ^ 16

abbrev pub IsU32 : ℕ → Type 0
IsU32 v = v < 2 ^ 32

abbrev pub IsU64 : ℕ → Type 0
IsU64 v = v < 2 ^ 64

abbrev pub IsInt32 : ℤ → Type 0
IsInt32 (pos n) = n < 2 ^ 31
IsInt32 (negsuc n) = n < 2 ^ 31

module _ {ℓ} {A : Type ℓ} {r : Reader A} {bs : Bytes} {a : A} (c : Codec r bs a) where
  pub read-append : (rest : Bytes) → r (bs ++ rest) 0 ≡ ok (a, 0 + length bs)
  read-append rest = c.reads (bs ++ rest) 0 rest (omega arith) refl

  read-take : (n : ℕ) → n < length bs → r (take n bs) 0 ≡ err underflow
  read-take n short = c.starves (take n bs) 0 n (omega arith) short refl

  pub read-between :
      (before rest : Bytes)
      → r (before ++ (bs ++ rest)) (length before) ≡ ok (a, length before + length bs)
  read-between before rest =
      c.reads (before ++ (bs ++ rest)) (length before) rest
        (omega (arith, length-append before (bs ++ rest))) (drop-append before (bs ++ rest))

header-Codec : (h : PacketHeader) → IsU16 h.sequence → Codec read_header (serialize_header h) h
unfolding read_header serialize_header
header-Codec h s = Codec-bind _ _ (Codec-uint8 h.kind) (
    Codec-bind _ _ (Codec-uint16 h.sequence s)
      (Codec-bind _ _ (Codec-uint8 h.length) (Codec-pure h)))

-- A header whose sequence number fits in 16 bits is read back from its four bytes, whatever
-- follows them.
pub header_roundtrip :
    (h : PacketHeader) (rest : Bytes)
    → IsU16 h.sequence
    → deserialize_header (serialize_header h ++ rest) ≡ ok h
unfolding deserialize_header serialize_header
header_roundtrip h rest s = ground (arith, read-append (header-Codec h s) rest)

pub bool_bit : (b : Bool) → nonzero (bit_of b) ≡ b
bool_bit true = refl
bool_bit false = refl

pub Codec-resp {ℓ} :
    {A : Type ℓ} {r : Reader A} {bs cs : Bytes} {a b : A}
    → Codec r bs a
    → bs ≡ cs
    → a ≡ b
    → Codec r cs b
Codec-resp {r} {bs} {cs} {a} {b} c e f = subst (λ l. Codec r l b) e (subst (Codec r bs) f c)

connect-Codec :
    (p : ConnectPacket)
    → IsU32 p.client_version
    → Codec read_connect (serialize_connect p) (record p { player_id = clipped p.player_id })
unfolding read_connect serialize_connect
connect-Codec p v =
    Codec-resp
      (Codec-bind _ _ (Codec-string p.player_id)
        (Codec-bind _ _ (Codec-uint32 p.client_version v) (Codec-pure _)))
      (simp (append_assoc, append-nil)) refl

-- A connect request whose version fits in 32 bits is read back with its version and with the
-- first 255 bytes of its player id, whatever follows it.
pub connect_roundtrip :
    (p : ConnectPacket) (rest : Bytes)
    → IsU32 p.client_version
    → deserialize_connect (serialize_connect p ++ rest)
      ≡ ok (record p { player_id = clipped p.player_id })
unfolding deserialize_connect
connect_roundtrip p rest v = rw (read-append (connect-Codec p v) rest)

-- Every proper prefix of a connect request whose version fits in 32 bits is refused by the
-- buffer underflow error.
pub connect_underflow :
    (p : ConnectPacket) (n : ℕ)
    → IsU32 p.client_version
    → n < length (serialize_connect p)
    → deserialize_connect (take n (serialize_connect p)) ≡ err underflow
unfolding deserialize_connect
connect_underflow p n v short = rw (read-take (connect-Codec p v) n short)

connect_ack-Codec :
    (p : ConnectAckPacket)
    → IsU32 p.server_tick
    → IsU16 p.tick_rate
    → Codec read_connect_ack
        (serialize_connect_ack p)
        (record p { assigned_id = clipped p.assigned_id })
unfolding read_connect_ack serialize_connect_ack
connect_ack-Codec p t r =
    Codec-resp
      (Codec-bind _ _ (Codec-string p.assigned_id) (
        Codec-bind _ _ (Codec-uint32 p.server_tick t)
          (Codec-bind _ _ (Codec-uint16 p.tick_rate r) (Codec-pure _))))
      (simp (append_assoc, append-nil)) refl

-- A connection's answer whose tick fits in 32 bits and whose rate fits in 16 is read back with
-- both and with the first 255 bytes of its id, whatever follows it.
pub connect_ack_roundtrip :
    (p : ConnectAckPacket) (rest : Bytes)
    → IsU32 p.server_tick
    → IsU16 p.tick_rate
    → deserialize_connect_ack (serialize_connect_ack p ++ rest)
      ≡ ok (record p { assigned_id = clipped p.assigned_id })
unfolding deserialize_connect_ack
connect_ack_roundtrip p rest t r = rw (read-append (connect_ack-Codec p t r) rest)

-- The integer fields of an input command are in their ranges.
pub record IsInput (c : InputCommand) : Type 0 where
  pub sequence_fits : IsU32 c.sequence
  pub timestamp_fits : IsU64 c.client_timestamp
  pub move_x_fits : IsU32 c.move_x
  pub move_y_fits : IsU32 c.move_y
  pub aim_fits : IsU32 c.aim_radians

pub div_one : (v : ℕ) → v / 1 ≡ v
div_one v = omega arith

input-Codec : (c : InputCommand) → IsInput c → Codec read_input (serialize_input c) c
unfolding read_input serialize_input
input-Codec c v =
    Codec-resp
      (Codec-bind _ _ (Codec-uint32 c.sequence v.sequence_fits) (
        Codec-bind _ _ (Codec-uint64 c.client_timestamp v.timestamp_fits) (
          Codec-bind _ _ (Codec-uint32 c.move_x v.move_x_fits) (
            Codec-bind _ _ (Codec-uint32 c.move_y v.move_y_fits) (
              Codec-bind _ _ (Codec-uint32 c.aim_radians v.aim_fits)
                (Codec-bind _ _ (Codec-uint8 (bit_of c.fire)) (Codec-pure _)))))))
      (simp (append-nil, div_one)) (ap (λ b. record c { fire = b }) (bool_bit c.fire))

-- An input command whose fields fit in their widths is read back whole, its floats bit by bit,
-- whatever follows it.
pub input_roundtrip :
    (c : InputCommand) (rest : Bytes)
    → IsInput c
    → deserialize_input (serialize_input c ++ rest) ≡ ok c
unfolding deserialize_input
input_roundtrip c rest v = rw (read-append (input-Codec c v) rest)

-- Every proper prefix of an input command whose fields fit in their widths is refused by the
-- buffer underflow error.
pub input_underflow :
    (c : InputCommand) (n : ℕ)
    → IsInput c
    → n < length (serialize_input c)
    → deserialize_input (take n (serialize_input c)) ≡ err underflow
unfolding deserialize_input
input_underflow c n v short = rw (read-take (input-Codec c v) n short)

-- The integer fields of a player's snapshot are in their ranges.
pub record IsPlayer (s : PlayerSnapshot) : Type 0 where
  pub x_fits : IsU32 s.x
  pub y_fits : IsU32 s.y
  pub facing_fits : IsU32 s.facing_radians
  pub health_fits : IsInt32 s.health
  pub sequence_fits : IsU32 s.last_input_sequence

pub uint32-fits : (h : ℤ) → IsU32 (uint32_of_int h)
unfolding uint32_of_int
uint32-fits (pos n) = omega arith
uint32-fits (negsuc n) = omega arith

pub int-uint32 : (h : ℤ) → IsInt32 h → int_of_uint32 (uint32_of_int h) ≡ h
unfolding uint32_of_int int_of_uint32
int-uint32 (pos n) v = ground arith
int-uint32 (negsuc n) v = ground arith

player-Codec :
    (s : PlayerSnapshot)
    → IsPlayer s
    → Codec deserialize_player (serialize_player s) (record s { player_id = clipped s.player_id })
unfolding deserialize_player serialize_player
player-Codec s v =
    Codec-resp
      (Codec-bind _ _ (Codec-string s.player_id) (
        Codec-bind _ _ (Codec-uint32 s.x v.x_fits) (
          Codec-bind _ _ (Codec-uint32 s.y v.y_fits) (
            Codec-bind _ _ (Codec-uint32 s.facing_radians v.facing_fits) (
              Codec-bind _ _ (Codec-uint32 (uint32_of_int s.health) (uint32-fits s.health)) (
                Codec-bind _ _ (Codec-uint8 (bit_of s.is_alive)) (
                  Codec-bind _ _ (Codec-uint32 s.last_input_sequence v.sequence_fits)
                    (Codec-pure _))))))))
      (simp (append_assoc, append-nil))
      (ap₂ (λ h b. record s { player_id = clipped s.player_id; health = h; is_alive = b })
        (int-uint32 s.health v.health_fits) (bool_bit s.is_alive))

-- A player's snapshot whose fields fit in their widths is read back at the place where it was
-- written, with the first 255 bytes of its id and with its signed health, and the offset moves
-- past it.
pub player_roundtrip :
    (s : PlayerSnapshot) (before rest : Bytes)
    → IsPlayer s
    → deserialize_player (before ++ (serialize_player s ++ rest)) (length before)
      ≡ ok (
        record s { player_id = clipped s.player_id },
        length before + length (serialize_player s),
      )
player_roundtrip s before rest v = read-between (player-Codec s v) before rest

-- The integer fields of a projectile's snapshot are in their ranges.
pub record IsProjectile (s : ProjectileSnapshot) : Type 0 where
  pub id_fits : IsU32 s.id
  pub x_fits : IsU32 s.x
  pub y_fits : IsU32 s.y
  pub velocity_x_fits : IsU32 s.velocity_x
  pub velocity_y_fits : IsU32 s.velocity_y

pub projectile-Codec :
    (s : ProjectileSnapshot)
    → IsProjectile s
    → Codec deserialize_projectile
        (serialize_projectile s)
        (record s { owner_id = clipped s.owner_id })
unfolding deserialize_projectile serialize_projectile
projectile-Codec s v =
    Codec-resp
      (Codec-bind _ _ (Codec-uint32 s.id v.id_fits) (
        Codec-bind _ _ (Codec-string s.owner_id) (
          Codec-bind _ _ (Codec-uint32 s.x v.x_fits) (
            Codec-bind _ _ (Codec-uint32 s.y v.y_fits) (
              Codec-bind _ _ (Codec-uint32 s.velocity_x v.velocity_x_fits)
                (Codec-bind _ _ (Codec-uint32 s.velocity_y v.velocity_y_fits) (Codec-pure _)))))))
      (simp (append_assoc, append-nil)) refl

-- A projectile's snapshot whose fields fit in their widths is read back at the place where it
-- was written, with the first 255 bytes of its owner's id, and the offset moves past it.
pub projectile_roundtrip :
    (s : ProjectileSnapshot) (before rest : Bytes)
    → IsProjectile s
    → deserialize_projectile (before ++ (serialize_projectile s ++ rest)) (length before)
      ≡ ok (
        record s { owner_id = clipped s.owner_id },
        length before + length (serialize_projectile s),
      )
projectile_roundtrip s before rest v = read-between (projectile-Codec s v) before rest

event-Codec :
    (e : GameEvent)
    → IsU64 e.timestamp
    → Codec read_event (serialize_event e) (record e { payload = clipped e.payload })
unfolding read_event serialize_event
event-Codec e t =
    Codec-resp
      (Codec-bind _ _ (Codec-uint8 e.kind) (
        Codec-bind _ _ (Codec-uint64 e.timestamp t)
          (Codec-bind _ _ (Codec-string e.payload) (Codec-pure _))))
      (simp (append-nil, div_one)) refl

-- A game event whose timestamp fits in 64 bits is read back with its kind, its timestamp and the
-- first 255 bytes of its text, whatever follows it.
pub event_roundtrip :
    (e : GameEvent) (rest : Bytes)
    → IsU64 e.timestamp
    → deserialize_event (serialize_event e ++ rest) ≡ ok (record e { payload = clipped e.payload })
unfolding deserialize_event
event_roundtrip e rest t = rw (read-append (event-Codec e t) rest)
