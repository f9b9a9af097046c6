-- ===== src/Input/Buffer.antt =====
-- input_buffer.h and input_buffer.cpp.
use working_for_codex.Base.{
  ℕ, suc, ◌+◌, ◌-◌, ◌%◌, ◌^◌, Bool, ◌&&◌, List, [], ◌∷◌, Option, none, some, if◌then◌else◌, ltb,
  leb, nat_beq, length,
}
use working_for_codex.Base.Int.{ℤ, pos, negsuc}
use working_for_codex.Packet.Types.{InputCommand}

pub record TimestampedInput : Type 0 where
  pub sequence : ℕ
  pub client_timestamp : ℕ
  pub server_receive_time : ℕ
  pub command : InputCommand

pub record Stats : Type 0 where
  pub inputs_received : ℕ
  pub inputs_processed : ℕ
  pub inputs_dropped : ℕ

pub record InputBuffer : Type 0 where
  pub buffer : List TimestampedInput
  pub last_processed_sequence : ℕ
  pub buffer_delay_ms : ℤ
  pub stats : Stats

abbrev pub buffer_size : ℕ
buffer_size = 64

unfoldable pub new_buffer : InputBuffer
new_buffer = record {
  buffer = [];
  last_processed_sequence = 0;
  buffer_delay_ms = pos 50;
  stats = record { inputs_received = 0; inputs_processed = 0; inputs_dropped = 0 };
}

-- `++` of a `std::uint64_t`.
unfoldable pub increment : ℕ → ℕ
increment n = (n + 1) % 2 ^ 64

-- `std::lower_bound` and the insertion there; an input whose number is there already is left out.
unfoldable pub insert_input : TimestampedInput → List TimestampedInput → List TimestampedInput
insert_input x [] = x ∷ []
insert_input x (y ∷ ys) =
    if ltb y.sequence x.sequence
    then y ∷ insert_input x ys
    else if nat_beq y.sequence x.sequence
    then y ∷ ys
    else x ∷ y ∷ ys

-- The loop that drops the front while the buffer is too long: the rest, and how many it dropped.
unfoldable pub trim : List TimestampedInput → List TimestampedInput × ℕ
trim [] = ([], 0)
trim (y ∷ ys) =
    let (rest, dropped) = trim ys in
    if ltb buffer_size (length (y ∷ ys)) then (rest, dropped + 1) else (y ∷ ys, 0)

unfoldable pub push : TimestampedInput → InputBuffer → InputBuffer
unfolding insert_input trim increment
push x b =
    let received = record b.stats { inputs_received = increment b.stats.inputs_received } in
    let (rest, dropped) = trim (insert_input x b.buffer) in
    if leb x.sequence b.last_processed_sequence
    then record b { stats = record received { inputs_dropped = increment received.inputs_dropped } }
    else record b {
      buffer = rest;
      stats = record received { inputs_dropped = (received.inputs_dropped + dropped) % 2 ^ 64 };
    }

-- An `int` that is added to a `std::uint64_t`.
abbrev pub as_uint64 : ℤ → ℕ
as_uint64 (pos n) = n % 2 ^ 64
as_uint64 (negsuc n) = 2 ^ 64 - suc n

abbrev pub ready_time : TimestampedInput → InputBuffer → ℕ
ready_time front b = (front.server_receive_time + as_uint64 b.buffer_delay_ms) % 2 ^ 64

abbrev pub pop_front : ℕ → List TimestampedInput → InputBuffer → InputBuffer × Option InputCommand
pop_front current_time [] b = (b, none)
pop_front current_time (front ∷ rest) b =
    if ltb current_time (ready_time front b) then (b, none) else (
      record b {
        buffer = rest;
        last_processed_sequence = front.sequence;
        stats = record b.stats { inputs_processed = increment b.stats.inputs_processed };
      },
      some front.command,
    )

unfoldable pub pop : ℕ → InputBuffer → InputBuffer × Option InputCommand
pop current_time b = pop_front current_time b.buffer b

unfoldable pub find_input : ℕ → List TimestampedInput → Option InputCommand
find_input n [] = none
find_input n (y ∷ ys) = if nat_beq y.sequence n then some y.command else find_input n ys

unfoldable pub get_input : ℕ → InputBuffer → Option InputCommand
unfolding find_input
get_input n b = find_input n b.buffer

unfoldable pub inputs_between : ℕ → ℕ → List TimestampedInput → List InputCommand
inputs_between start_seq end_seq [] = []
inputs_between start_seq end_seq (y ∷ ys) =
    let rest = inputs_between start_seq end_seq ys in
    if leb start_seq y.sequence && leb y.sequence end_seq then y.command ∷ rest else rest

unfoldable pub get_input_range : ℕ → ℕ → InputBuffer → List InputCommand
unfolding inputs_between
get_input_range start_seq end_seq b = inputs_between start_seq end_seq b.buffer

unfoldable pub size : InputBuffer → ℕ
size b = length b.buffer

unfoldable pub is_empty : InputBuffer → Bool
is_empty b = nat_beq (length b.buffer) 0

unfoldable pub set_buffer_delay : ℤ → InputBuffer → InputBuffer
set_buffer_delay delay_ms b = record b { buffer_delay_ms = delay_ms }
