-- ===== src/Input/Sorted.antt =====
-- The order of the inputs of input_buffer.cpp.
use working_for_codex.Base.{
  ℕ, ◌<◌, ◌≤◌, ◌≡◌, inl, inr, refl, List, [], ◌∷◌, some, ltb, leb, nat_beq, length, arith,
  Bool-cases,
}
use working_for_codex.Base.Int.{ℤ}
use working_for_codex.Packet.Types.{InputCommand}
use working_for_codex.Input.Buffer.{
  TimestampedInput, InputBuffer, new_buffer, insert_input, trim, push, pop, pop_front, buffer_size,
  set_buffer_delay, ready_time,
}

-- The numbers go up, and start above the given one.
abbrev pub Ascending : ℕ → List TimestampedInput → Type 0
Ascending n [] = Unit
Ascending n (y ∷ ys) = (n < y.sequence) × Ascending y.sequence ys

pub record IsOrdered (b : InputBuffer) : Type 0 where
  pub ascending : Ascending b.last_processed_sequence b.buffer
  pub bounded : length b.buffer ≤ 64

insert_input-Ascending :
    (n : ℕ) (x : TimestampedInput) (ys : List TimestampedInput)
    → n < x.sequence
    → Ascending n ys
    → Ascending n (insert_input x ys)
unfolding insert_input
insert_input-Ascending n x [] lt v = (lt, tt)
insert_input-Ascending n x (y ∷ ys) lt v = elim (Bool-cases (ltb y.sequence x.sequence)) [
  | inl h ↦ rw h (v.0, insert_input-Ascending y.sequence x ys (ground arith) v.1)
  | inr h ↦ rw h (elim (Bool-cases (nat_beq y.sequence x.sequence)) [
    | inl f ↦ rw f v
    | inr f ↦ let rest : Ascending x.sequence (y ∷ ys) = (ground arith, v.1) in rw f (lt, rest)
  ])
]

Ascending-lower : (m n : ℕ) (ys : List TimestampedInput) → m ≤ n → Ascending n ys → Ascending m ys
Ascending-lower m n [] le v = tt
Ascending-lower m n (y ∷ ys) le v = (omega arith, v.1)

trim-Ascending : (n : ℕ) (ys : List TimestampedInput) → Ascending n ys → Ascending n (trim ys).0
unfolding trim
trim-Ascending n [] v = tt
trim-Ascending n (y ∷ ys) v = elim (Bool-cases (ltb buffer_size (length (y ∷ ys)))) [
  | inl h ↦ rw h (trim-Ascending n ys (Ascending-lower n y.sequence ys (omega arith) v.1))
  | inr h ↦ rw h v
]

trim-length : (ys : List TimestampedInput) → length (trim ys).0 ≤ 64
unfolding trim
trim-length [] = omega arith
trim-length (y ∷ ys) = ground (arith, trim-length ys)

push-IsOrdered : (x : TimestampedInput) (b : InputBuffer) → IsOrdered b → IsOrdered (push x b)
unfolding push
push-IsOrdered x b v = elim (Bool-cases (leb x.sequence b.last_processed_sequence)) [
  | inl h ↦ rw h (record { ascending = v.ascending; bounded = v.bounded })
  | inr h ↦ rw h (record {
    ascending =
        trim-Ascending b.last_processed_sequence (insert_input x b.buffer)
          (insert_input-Ascending b.last_processed_sequence x b.buffer (ground arith) v.ascending);
    bounded = trim-length (insert_input x b.buffer);
  })
]

push-last :
    (x : TimestampedInput) (b : InputBuffer)
    → b.last_processed_sequence ≤ (push x b).last_processed_sequence
unfolding push
push-last x b = ground arith

pop_front-IsOrdered :
    (t : ℕ) (ys : List TimestampedInput) (b : InputBuffer)
    → b.buffer ≡ ys
    → IsOrdered b
    → IsOrdered (pop_front t ys b).0
      × (b.last_processed_sequence ≤ (pop_front t ys b).0.last_processed_sequence)
pop_front-IsOrdered t [] b e v = (v, omega arith)
pop_front-IsOrdered t (y ∷ ys) b e v =
    let up : Ascending b.last_processed_sequence (y ∷ ys) = rw e at v.ascending in
    let few : length (y ∷ ys) ≤ 64 = rw e at v.bounded in
    elim (Bool-cases (ltb t (ready_time y b))) [
      | inl h ↦ rw h (v, omega arith)
      | inr h ↦
          rw h (record { ascending = up.1; bounded = omega (arith, few) }, omega (arith, up.0))
    ]

pub data Call : Type 0 where
  pushed : TimestampedInput → Call
  popped : ℕ → Call
  delayed : ℤ → Call

unfoldable pub step : InputBuffer → Call → InputBuffer
step b (pushed x) = push x b
step b (popped t) = (pop t b).0
step b (delayed d) = set_buffer_delay d b

unfoldable pub run : InputBuffer → List Call → InputBuffer
unfolding step
run b [] = b
run b (c ∷ cs) = run (step b c) cs

step-IsOrdered :
    (b : InputBuffer) (c : Call)
    → IsOrdered b
    → IsOrdered (step b c) × (b.last_processed_sequence ≤ (step b c).last_processed_sequence)
unfolding step pop set_buffer_delay
step-IsOrdered b (pushed x) v = (push-IsOrdered x b v, push-last x b)
step-IsOrdered b (popped t) v = pop_front-IsOrdered t b.buffer b refl v
step-IsOrdered b (delayed d) v =
    (record { ascending = v.ascending; bounded = v.bounded }, omega arith)

-- From a buffer that holds at most 64 inputs, with numbers that go up and lie above the last
-- processed one, every history of pushes, pops and changes of the delay leads to such a buffer,
-- and the last processed number never goes back.
pub run-IsOrdered :
    (b : InputBuffer) (cs : List Call)
    → IsOrdered b
    → IsOrdered (run b cs) × (b.last_processed_sequence ≤ (run b cs).last_processed_sequence)
unfolding run
run-IsOrdered b [] v = (v, omega arith)
run-IsOrdered b (c ∷ cs) v =
    let (one, up) = step-IsOrdered b c v in
    let (all, more) = run-IsOrdered (step b c) cs one in (all, omega arith)

pub new_buffer-IsOrdered : IsOrdered new_buffer
unfolding new_buffer
new_buffer-IsOrdered = record { ascending = tt; bounded = omega arith }

-- An input that comes out of a buffer in order is its first one, with a number above every
-- number that was processed before, and it has waited for the delay.
pub pop-least :
    (t : ℕ) (b : InputBuffer) (c : InputCommand)
    → IsOrdered b
    → (pop t b).1 ≡ some c
    → (x : TimestampedInput) × (x.command ≡ c)
      × (b.buffer ≡ x ∷ (pop t b).0.buffer)
      × (b.last_processed_sequence < x.sequence)
      × (ready_time x b ≤ t)
unfolding pop
pop-least t b c v e = least b.buffer refl e
  where
    least :
        (ys : List TimestampedInput)
        → b.buffer ≡ ys
        → (pop_front t ys b).1 ≡ some c
        → (x : TimestampedInput) × (x.command ≡ c)
          × (b.buffer ≡ x ∷ (pop_front t ys b).0.buffer)
          × (b.last_processed_sequence < x.sequence)
          × (ready_time x b ≤ t)
    least [] s h = absurd (ground arith)
    least (y ∷ ys) s h =
        let up : Ascending b.last_processed_sequence (y ∷ ys) = rw s at v.ascending in
        elim (Bool-cases (ltb t (ready_time y b))) [
          | inl f ↦ absurd (let g = rw f at h in ground (arith, g))
          | inr f ↦ let g = rw f at h in (y, ground (arith, g), rw f s, up.0, ground (arith, f))
        ]
