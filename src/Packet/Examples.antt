-- ===== src/Packet/Examples.antt =====
-- packet_types.cpp run on small packets.
use working_for_codex.Base.{
  ◌<◌, Bool, ◌≡◌, refl, true, [], ◌∷◌, ◌++◌, length, codes, take, ok, err, arith,
}
use working_for_codex.Base.Int.{negsuc}
use working_for_codex.Packet.Buffer.{underflow}
use working_for_codex.Packet.Types.{
  PacketHeader, ConnectPacket, ConnectAckPacket, InputCommand, PlayerSnapshot, ProjectileSnapshot,
  GameEvent, serialize_header, serialize_connect, serialize_input, deserialize_input,
  header_is_valid,
}
use working_for_codex.Packet.RoundTrip.{IsInput, input_roundtrip, input_underflow}

abbrev input_header : PacketHeader
input_header = record { kind = 0x10; sequence = 0x1234; length = 29 }

header_bytes : serialize_header input_header ≡ 0x10 ∷ 0x12 ∷ 0x34 ∷ 29 ∷ []
unfolding serialize_header
header_bytes = refl

abbrev hello : ConnectPacket
hello = record { player_id = codes "ann"; client_version = 0x01020304 }

hello_bytes : serialize_connect hello ≡ 3 ∷ 97 ∷ 110 ∷ 110 ∷ 1 ∷ 2 ∷ 3 ∷ 4 ∷ []
unfolding serialize_connect
hello_bytes = refl

hello-long : 5 < length (serialize_connect hello)
unfolding serialize_connect
hello-long = omega arith

abbrev welcome : ConnectAckPacket
welcome = record { assigned_id = codes "ann"; server_tick = 600; tick_rate = 60 }

abbrev move : InputCommand
move = record {
  sequence = 9;
  client_timestamp = 0x0102030405060708;
  move_x = 0x3f800000;
  move_y = 0;
  aim_radians = 0xbf800000;
  fire = true;
}

move-IsInput : IsInput move
move-IsInput = omega arith

move_bytes : take 12 (serialize_input move) ≡ 0 ∷ 0 ∷ 0 ∷ 9 ∷ 1 ∷ 2 ∷ 3 ∷ 4 ∷ 5 ∷ 6 ∷ 7 ∷ 8 ∷ []
unfolding serialize_input
move_bytes = refl

input_roundtrip_example : deserialize_input (serialize_input move ++ []) ≡ ok move
input_roundtrip_example = input_roundtrip move [] move-IsInput

move-long : 20 < length (serialize_input move)
unfolding serialize_input
move-long = omega arith

input_underflow_example : deserialize_input (take 20 (serialize_input move)) ≡ err underflow
input_underflow_example = input_underflow move 20 move-IsInput move-long

abbrev wounded : PlayerSnapshot
wounded = record {
  player_id = codes "bob";
  x = 0x3f800000;
  y = 0;
  facing_radians = 0;
  health = negsuc 4;
  is_alive = true;
  last_input_sequence = 77;
}

abbrev arrow : ProjectileSnapshot
arrow = record { id = 5; owner_id = codes "bob"; x = 1; y = 2; velocity_x = 3; velocity_y = 4 }

abbrev death : GameEvent
death = record { kind = 0x10; timestamp = 123456; payload = codes "bob" }

short_header : header_is_valid (1 ∷ 2 ∷ 3 ∷ []) ≡ Bool.false
unfolding header_is_valid
short_header = refl
