-- ===== src/Input/Examples.antt =====
-- input_buffer.cpp run on inputs that arrive out of order.
use working_for_codex.Base.{
  ℕ, ◌≤◌, ◌≡◌, refl, true, List, [], ◌∷◌, none, some, if◌then◌else◌, leb, nat_beq, length, arith,
}
use working_for_codex.Packet.Types.{InputCommand}
use working_for_codex.Input.Buffer.{TimestampedInput, InputBuffer, new_buffer, push, pop, get_input}
use working_for_codex.Input.Sorted.{
  IsOrdered, Call, pushed, run, run-IsOrdered, new_buffer-IsOrdered,
}
use working_for_codex.Input.Lookup.{or_else, push-get_input}

abbrev command : ℕ → InputCommand
command n = record {
  sequence = n;
  client_timestamp = 0;
  move_x = 0;
  move_y = 0;
  aim_radians = 0;
  fire = true;
}

abbrev input : ℕ → TimestampedInput
input n = record {
  sequence = n;
  client_timestamp = 0;
  server_receive_time = 100;
  command = command n;
}

abbrev calls : List Call
calls = pushed (input 7) ∷ pushed (input 5) ∷ pushed (input 5) ∷ []

abbrev buffer : InputBuffer
buffer = run new_buffer calls

buffer-IsOrdered : IsOrdered buffer
buffer-IsOrdered = (run-IsOrdered new_buffer calls new_buffer-IsOrdered).0

run-IsOrdered_example :
    IsOrdered (run new_buffer calls)
    × (new_buffer.last_processed_sequence ≤ (run new_buffer calls).last_processed_sequence)
run-IsOrdered_example = run-IsOrdered new_buffer calls new_buffer-IsOrdered

five_first : (pop 150 buffer).1 ≡ some (command 5)
unfolding pop run new_buffer push
five_first = refl

too_early : (pop 149 buffer).1 ≡ none
unfolding pop run new_buffer push
too_early = refl

two_held : length buffer.buffer ≡ 2
unfolding run new_buffer push
two_held = refl

push-get_input_example : get_input 6 (push (input 6) buffer) ≡ (
    if leb 6 buffer.last_processed_sequence
    then get_input 6 buffer
    else or_else (get_input 6 buffer) (if nat_beq 6 6 then some (command 6) else none))
push-get_input_example =
    push-get_input 6 (input 6) buffer buffer-IsOrdered (omega (arith, two_held))
