-- ===== src/Input/Lookup.antt =====
-- What a look-up in input_buffer.cpp finds after a push.
use working_for_codex.Base.{
  ℕ, ◌+◌, ◌<◌, ◌≤◌, ◌≡◌, inl, inr, refl, ap, ◌∙◌, List, [], ◌∷◌, Option, none, some, if◌then◌else◌,
  leb, nat_beq, length, arith, Bool-cases,
}
use working_for_codex.Packet.Types.{InputCommand}
use working_for_codex.Input.Buffer.{
  TimestampedInput, InputBuffer, insert_input, trim, push, get_input, find_input,
}
use working_for_codex.Input.Sorted.{Ascending, IsOrdered}

abbrev pub or_else : Option InputCommand → Option InputCommand → Option InputCommand
or_else none o = o
or_else (some c) o = some c

length-insert_input :
    (x : TimestampedInput) (ys : List TimestampedInput) → length (insert_input x ys) ≤ length ys + 1
unfolding insert_input
length-insert_input x [] = omega arith
length-insert_input x (y ∷ ys) = ground (arith, length-insert_input x ys)

trim-short : (ys : List TimestampedInput) → length ys ≤ 64 → (trim ys).0 ≡ ys
unfolding trim
trim-short [] h = refl
trim-short (y ∷ ys) h = ground arith

find_input-absent :
    (m n : ℕ) (ys : List TimestampedInput) → Ascending m ys → n ≤ m → find_input n ys ≡ none
unfolding find_input
find_input-absent m n [] v le = refl
find_input-absent m n (y ∷ ys) v le =
    let rest = find_input-absent y.sequence n ys v.1 (omega (arith, v.0)) in
    ground (arith, rest, v.0)

find_input-insert_input :
    (m n : ℕ) (x : TimestampedInput) (ys : List TimestampedInput)
    → Ascending m ys
    → find_input n (insert_input x ys)
      ≡ or_else (find_input n ys) (if nat_beq x.sequence n then some x.command else none)
unfolding find_input insert_input
find_input-insert_input m n x [] v = refl
find_input-insert_input m n x (y ∷ ys) v =
    let rest = find_input-insert_input y.sequence n x ys v.1 in
    let absent : n ≤ y.sequence → find_input n ys ≡ none = find_input-absent y.sequence n ys v.1 in
    ground (arith, rest, absent)

-- In a buffer in order that has room, a pushed input is found under its number, unless that
-- number is processed already or an input with it came earlier, which then stays; all other
-- inputs stay as they are.
pub push-get_input :
    (n : ℕ) (x : TimestampedInput) (b : InputBuffer)
    → IsOrdered b
    → length b.buffer < 64
    → get_input n (push x b) ≡ (
        if leb x.sequence b.last_processed_sequence
        then get_input n b
        else or_else (get_input n b) (if nat_beq x.sequence n then some x.command else none))
unfolding get_input push
push-get_input n x b v room = elim (Bool-cases (leb x.sequence b.last_processed_sequence)) [
  | inl h ↦ rw h refl
  | inr h ↦ rw h (
      ap (find_input n)
        (trim-short (insert_input x b.buffer) (omega (arith, length-insert_input x b.buffer)))
      ∙ find_input-insert_input b.last_processed_sequence n x b.buffer v.ascending)
]
