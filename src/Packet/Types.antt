-- ===== src/Packet/Types.antt =====
-- packet_types.h and the `Serialize` and `Deserialize` members of packet_types.cpp. A field of an
-- enumeration is its byte: the cast from a byte keeps every value.
use working_for_codex.Base.{ℕ, Bool, Bytes, [], if◌then◌else◌, ltb, leb, length, Result, ok, err}
use working_for_codex.Base.Int.{ℤ}
use working_for_codex.Packet.Buffer.{
  Error, invalid_header_size, write_uint8, write_uint16_be, write_uint32_be, write_uint64_be,
  write_float, write_string, Reader, pure, ◌>>=◌, read_uint8, read_uint16_be, read_uint32_be,
  read_uint64_be, read_float, read_string, uint32_of_int, int_of_uint32, bit_of, nonzero,
}

abbrev pub finish {ℓ} : {A : Type ℓ} → Result Error (A × ℕ) → Result Error A
finish (ok (a, offset)) = ok a
finish (err e) = err e

pub record PacketHeader : Type 0 where
  pub kind : ℕ
  pub sequence : ℕ
  pub length : ℕ

pub record ConnectPacket : Type 0 where
  pub player_id : Bytes
  pub client_version : ℕ

pub record ConnectAckPacket : Type 0 where
  pub assigned_id : Bytes
  pub server_tick : ℕ
  pub tick_rate : ℕ

pub record InputCommand : Type 0 where
  pub sequence : ℕ
  pub client_timestamp : ℕ
  pub move_x : ℕ
  pub move_y : ℕ
  pub aim_radians : ℕ
  pub fire : Bool

pub record PlayerSnapshot : Type 0 where
  pub player_id : Bytes
  pub x : ℕ
  pub y : ℕ
  pub facing_radians : ℕ
  pub health : ℤ
  pub is_alive : Bool
  pub last_input_sequence : ℕ

pub record ProjectileSnapshot : Type 0 where
  pub id : ℕ
  pub owner_id : Bytes
  pub x : ℕ
  pub y : ℕ
  pub velocity_x : ℕ
  pub velocity_y : ℕ

pub record GameEvent : Type 0 where
  pub kind : ℕ
  pub timestamp : ℕ
  pub payload : Bytes

-- The header's SIZE.
abbrev pub header_size : ℕ
header_size = 4

unfoldable pub serialize_header : PacketHeader → Bytes
unfolding write_uint8 write_uint16_be
serialize_header h = write_uint8 (write_uint16_be (write_uint8 [] h.kind) h.sequence) h.length

unfoldable pub read_header : Reader PacketHeader
unfolding read_uint8 read_uint16_be
read_header = do
  kind ← read_uint8
  sequence ← read_uint16_be
  len ← read_uint8
  pure (record { kind = kind; sequence = sequence; length = len })

unfoldable pub deserialize_header : Bytes → Result Error PacketHeader
unfolding read_header
deserialize_header payload =
    if ltb (length payload) header_size
    then err invalid_header_size
    else finish (read_header payload 0)

unfoldable pub header_is_valid : Bytes → Bool
header_is_valid payload = leb header_size (length payload)

unfoldable pub serialize_connect : ConnectPacket → Bytes
unfolding write_string write_uint32_be
serialize_connect p = write_uint32_be (write_string [] p.player_id) p.client_version

unfoldable pub read_connect : Reader ConnectPacket
unfolding read_string read_uint32_be
read_connect = do
  player_id ← read_string
  client_version ← read_uint32_be
  pure (record { player_id = player_id; client_version = client_version })

unfoldable pub deserialize_connect : Bytes → Result Error ConnectPacket
unfolding read_connect
deserialize_connect payload = finish (read_connect payload 0)

unfoldable pub serialize_connect_ack : ConnectAckPacket → Bytes
unfolding write_string write_uint32_be write_uint16_be
serialize_connect_ack p =
    write_uint16_be (write_uint32_be (write_string [] p.assigned_id) p.server_tick) p.tick_rate

unfoldable pub read_connect_ack : Reader ConnectAckPacket
unfolding read_string read_uint32_be read_uint16_be
read_connect_ack = do
  assigned_id ← read_string
  server_tick ← read_uint32_be
  tick_rate ← read_uint16_be
  pure (record { assigned_id = assigned_id; server_tick = server_tick; tick_rate = tick_rate })

unfoldable pub deserialize_connect_ack : Bytes → Result Error ConnectAckPacket
unfolding read_connect_ack
deserialize_connect_ack payload = finish (read_connect_ack payload 0)

unfoldable pub serialize_input : InputCommand → Bytes
unfolding write_uint8 write_uint32_be write_uint64_be write_float
serialize_input c =
    let head = write_uint64_be (write_uint32_be [] c.sequence) c.client_timestamp in
    let moves = write_float (write_float head c.move_x) c.move_y in
    write_uint8 (write_float moves c.aim_radians) (bit_of c.fire)

unfoldable pub read_input : Reader InputCommand
unfolding read_uint8 read_uint32_be read_uint64_be read_float
read_input = do
  sequence ← read_uint32_be
  client_timestamp ← read_uint64_be
  move_x ← read_float
  move_y ← read_float
  aim_radians ← read_float
  fire ← read_uint8
  pure (record {
    sequence = sequence;
    client_timestamp = client_timestamp;
    move_x = move_x;
    move_y = move_y;
    aim_radians = aim_radians;
    fire = nonzero fire;
  })

unfoldable pub deserialize_input : Bytes → Result Error InputCommand
unfolding read_input
deserialize_input payload = finish (read_input payload 0)

unfoldable pub serialize_player : PlayerSnapshot → Bytes
unfolding write_uint8 write_uint32_be write_float write_string uint32_of_int
serialize_player s =
    let place = write_float (write_float (write_string [] s.player_id) s.x) s.y in
    let pose = write_uint32_be (write_float place s.facing_radians) (uint32_of_int s.health) in
    write_uint32_be (write_uint8 pose (bit_of s.is_alive)) s.last_input_sequence

-- This one and the next read at the caller's offset.
unfoldable pub deserialize_player : Reader PlayerSnapshot
unfolding read_uint8 read_uint32_be read_float read_string int_of_uint32
deserialize_player = do
  player_id ← read_string
  x ← read_float
  y ← read_float
  facing_radians ← read_float
  health ← read_uint32_be
  is_alive ← read_uint8
  last_input_sequence ← read_uint32_be
  pure (record {
    player_id = player_id;
    x = x;
    y = y;
    facing_radians = facing_radians;
    health = int_of_uint32 health;
    is_alive = nonzero is_alive;
    last_input_sequence = last_input_sequence;
  })

unfoldable pub serialize_projectile : ProjectileSnapshot → Bytes
unfolding write_uint32_be write_float write_string
serialize_projectile s =
    let place =
      write_float (write_float (write_string (write_uint32_be [] s.id) s.owner_id) s.x) s.y in
    write_float (write_float place s.velocity_x) s.velocity_y

unfoldable pub deserialize_projectile : Reader ProjectileSnapshot
unfolding read_uint32_be read_float read_string
deserialize_projectile = do
  id ← read_uint32_be
  owner_id ← read_string
  x ← read_float
  y ← read_float
  velocity_x ← read_float
  velocity_y ← read_float
  pure (record {
    id = id;
    owner_id = owner_id;
    x = x;
    y = y;
    velocity_x = velocity_x;
    velocity_y = velocity_y;
  })

unfoldable pub serialize_event : GameEvent → Bytes
unfolding write_uint8 write_uint64_be write_string
serialize_event e = write_string (write_uint64_be (write_uint8 [] e.kind) e.timestamp) e.payload

unfoldable pub read_event : Reader GameEvent
unfolding read_uint8 read_uint64_be read_string
read_event = do
  kind ← read_uint8
  timestamp ← read_uint64_be
  payload ← read_string
  pure (record { kind = kind; timestamp = timestamp; payload = payload })

unfoldable pub deserialize_event : Bytes → Result Error GameEvent
unfolding read_event
deserialize_event payload = finish (read_event payload 0)
