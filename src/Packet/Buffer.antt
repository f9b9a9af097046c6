-- ===== src/Packet/Buffer.antt =====
-- packet_types.cpp, the helpers in its anonymous namespace. A buffer is its list of bytes. `x & 0xFF`
-- is `x % 256`, and `|` joins values whose bits are disjoint, so that it is `+`.
use working_for_codex.Base.{
  ℕ, zero, suc, ◌+◌, ◌-◌, ◌*◌, ◌/◌, ◌%◌, ◌^◌, Bool, Bytes, [], ◌∷◌, ◌++◌, if◌then◌else◌, ltb, leb,
  nat_beq, not, length, get_or, take, drop, min, Result, ok, err,
}
use working_for_codex.Base.Int.{ℤ, pos, negsuc}

-- The `what()` of the `std::runtime_error`s.
pub data Error : Type 0 where
  underflow : Error
  invalid_header_size : Error

unfoldable pub write_uint8 : Bytes → ℕ → Bytes
write_uint8 buffer value = buffer ++ value ∷ []

unfoldable pub write_uint16_be : Bytes → ℕ → Bytes
unfolding write_uint8
write_uint16_be buffer value = write_uint8 (write_uint8 buffer (value / 2 ^ 8 % 256)) (value % 256)

unfoldable pub write_uint32_be : Bytes → ℕ → Bytes
unfolding write_uint8
write_uint32_be buffer value =
    write_uint8
      (write_uint8 (write_uint8 (write_uint8 buffer (value / 2 ^ 24 % 256)) (value / 2 ^ 16 % 256))
        (value / 2 ^ 8 % 256))
      (value % 256)

-- `for (int i = 7; i >= 0; --i)`, entered with one more than `i`.
unfoldable pub write_uint64_loop : ℕ → Bytes → ℕ → Bytes
write_uint64_loop zero buffer value = buffer
write_uint64_loop (suc i) buffer value =
    write_uint64_loop i (buffer ++ (value / 2 ^ (i * 8) % 256) ∷ []) value

unfoldable pub write_uint64_be : Bytes → ℕ → Bytes
unfolding write_uint64_loop
write_uint64_be buffer value = write_uint64_loop 8 buffer value

-- A float is its bit pattern: `memcpy` moves it into a `uint32_t`.
unfoldable pub write_float : Bytes → ℕ → Bytes
unfolding write_uint32_be
write_float buffer bits = write_uint32_be buffer bits

unfoldable pub write_string : Bytes → Bytes → Bytes
unfolding write_uint8
write_string buffer str = let len = min (length str) 255 in write_uint8 buffer len ++ take len str

-- A function of the data and `std::size_t& offset`, which may throw.
abbrev pub Reader {ℓ} : Type ℓ → Type ℓ
Reader A = Bytes → ℕ → Result Error (A × ℕ)

abbrev pub pure {ℓ} : {A : Type ℓ} → A → Reader A
pure a payload offset = ok (a, offset)

abbrev pub continue {ℓ κ} :
    {A : Type ℓ} {B : Type κ} → (A → Reader B) → Bytes → Result Error (A × ℕ) → Result Error (B × ℕ)
continue f payload (ok (a, offset)) = f a payload offset
continue f payload (err e) = err e

infixl 5 ◌>>=◌
abbrev pub ◌>>=◌ {ℓ κ} : {A : Type ℓ} {B : Type κ} → Reader A → (A → Reader B) → Reader B
◌>>=◌ m f payload offset = continue f payload (m payload offset)

unfoldable pub read_uint8 : Reader ℕ
read_uint8 payload offset =
    if leb (length payload) offset then err underflow else ok (get_or payload offset 0, offset + 1)

unfoldable pub read_uint16_be : Reader ℕ
read_uint16_be payload offset =
    if ltb (length payload) (offset + 2)
    then err underflow
    else ok (get_or payload offset 0 * 2 ^ 8 + get_or payload (offset + 1) 0, offset + 2)

unfoldable pub read_uint32_be : Reader ℕ
read_uint32_be payload offset =
    if ltb (length payload) (offset + 4)
    then err underflow
    else ok (
      get_or payload offset 0 * 2 ^ 24
          + get_or payload (offset + 1) 0 * 2 ^ 16
          + get_or payload (offset + 2) 0 * 2 ^ 8
          + get_or payload (offset + 3) 0,
      offset + 4,
    )

-- `value = (value << 8) | data[offset + i]` for i from 8 - n up to 7.
unfoldable pub read_uint64_loop : ℕ → Bytes → ℕ → ℕ → ℕ
read_uint64_loop zero payload position value = value
read_uint64_loop (suc n) payload position value =
    read_uint64_loop n payload (position + 1) (value * 2 ^ 8 % 2 ^ 64 + get_or payload position 0)

unfoldable pub read_uint64_be : Reader ℕ
unfolding read_uint64_loop
read_uint64_be payload offset =
    if ltb (length payload) (offset + 8)
    then err underflow
    else ok (read_uint64_loop 8 payload offset 0, offset + 8)

unfoldable pub read_float : Reader ℕ
unfolding read_uint32_be
read_float = read_uint32_be

-- The rest of `ReadString`, once the length byte is read.
unfoldable pub read_chars : ℕ → Reader Bytes
read_chars len payload offset =
    if ltb (length payload) (offset + len)
    then err underflow
    else ok (take len (drop offset payload), offset + len)

unfoldable pub read_string : Reader Bytes
unfolding read_uint8 read_chars
read_string = read_uint8 >>= read_chars

-- `static_cast<std::uint32_t>` of an `int32_t`, and back.
unfoldable pub uint32_of_int : ℤ → ℕ
uint32_of_int (pos n) = n % 2 ^ 32
uint32_of_int (negsuc n) = 4294967295 - n % 2 ^ 32

unfoldable pub int_of_uint32 : ℕ → ℤ
int_of_uint32 v = if ltb v 2147483648 then pos v else negsuc (4294967295 - v)

abbrev pub bit_of : Bool → ℕ
bit_of b = if b then 1 else 0

abbrev pub nonzero : ℕ → Bool
nonzero n = not (nat_beq n 0)
