-- ===== src/Packet/Codec.antt =====
-- A reader that undoes a writer: it takes back the bytes at any place, and throws on any shorter rest.
use working_for_codex.Base.{
  ℕ, zero, suc, ◌+◌, ◌-◌, ◌*◌, ◌/◌, ◌%◌, ◌^◌, ◌<◌, ◌≤◌, ◌≡◌, refl, ap, ◌∙◌, Bytes, [], ◌∷◌, ◌++◌,
  length, get_or, take, drop, length-append, length-drop, ok, err, arith, inl, inr, append_assoc,
  length-take, subst, Bool-cases, ltb, min,
}
use working_for_codex.Packet.Buffer.{
  underflow, Reader, pure, ◌>>=◌, read_uint8, read_uint16_be, read_uint32_be, read_uint64_be,
  read_uint64_loop, read_chars, read_string,
}

pub record Codec {ℓ} {A : Type ℓ} (r : Reader A) (bs : Bytes) (a : A) : Type ℓ where
  pub reads :
      (payload : Bytes) (offset : ℕ) (rest : Bytes)
      → offset ≤ length payload
      → drop offset payload ≡ bs ++ rest
      → r payload offset ≡ ok (a, offset + length bs)
  pub starves :
      (payload : Bytes) (offset n : ℕ)
      → offset ≤ length payload
      → n < length bs
      → drop offset payload ≡ take n bs
      → r payload offset ≡ err underflow

drop-add : (m n : ℕ) (xs : Bytes) → drop (m + n) xs ≡ drop n (drop m xs)
drop-add zero n xs = ap (λ k. drop k xs) (omega arith)
drop-add (suc m) zero [] = let e : suc m + zero ≡ suc m = omega arith in rw e
drop-add (suc m) (suc n) [] = let e : suc m + suc n ≡ suc (m + suc n) = omega arith in rw e
drop-add (suc m) n (x ∷ xs) =
    let e : suc m + n ≡ suc (m + n) = omega arith in rw e (drop-add m n xs)

get_or-drop : (m n : ℕ) (xs : Bytes) → get_or xs (m + n) 0 ≡ get_or (drop m xs) n 0
get_or-drop zero n xs = ap (λ k. get_or xs k 0) (omega arith)
get_or-drop (suc m) n [] = refl
get_or-drop (suc m) n (x ∷ xs) =
    let e : suc m + n ≡ suc (m + n) = omega arith in rw e (get_or-drop m n xs)

pub drop-append : (bs rest : Bytes) → drop (length bs) (bs ++ rest) ≡ rest
drop-append [] rest = refl
drop-append (b ∷ bs) rest = drop-append bs rest

take-append : (bs rest : Bytes) → take (length bs) (bs ++ rest) ≡ bs
take-append [] rest = refl
take-append (b ∷ bs) rest = ap (λ l. b ∷ l) (take-append bs rest)

-- What is left behind the place at which `bs` stand.
module _ (payload : Bytes) (offset : ℕ) (bs rest : Bytes) (here : offset ≤ length payload)
    (at : drop offset payload ≡ bs ++ rest) where
  pub length-at : length payload ≡ offset + length bs + length rest
  length-at = omega (arith, ap length at, length-drop offset payload, length-append bs rest)

  pub drop-at : drop (offset + length bs) payload ≡ rest
  drop-at = drop-add offset (length bs) payload ∙ ap (drop (length bs)) at ∙ drop-append bs rest

  pub get_or-at : (n : ℕ) → get_or payload (offset + n) 0 ≡ get_or (bs ++ rest) n 0
  get_or-at n = get_or-drop offset n payload ∙ ap (λ l. get_or l n 0) at

get_or-here : (offset : ℕ) (xs : Bytes) → get_or xs offset 0 ≡ get_or (drop offset xs) 0 0
get_or-here offset xs = rw (← get_or-drop offset 0 xs) (ap (λ k. get_or xs k 0) (omega arith))

length-starved :
    (payload bs : Bytes) (offset n : ℕ)
    → offset ≤ length payload
    → n < length bs
    → drop offset payload ≡ take n bs
    → length payload < offset + length bs
length-starved payload bs offset n here short at =
    omega (arith, ap length at, length-drop offset payload, length-take n bs)

pub Codec-pure {ℓ} : {A : Type ℓ} (a : A) → Codec (pure a) [] a
Codec-pure a = record {
  reads = λ payload offset rest here at.
      ap (λ (k : ℕ). ok (a, k)) (let e : offset ≡ offset + 0 = omega arith in e);
  starves = λ payload offset n here short at. absurd (omega arith);
}

pub Codec-uint8 : (v : ℕ) → Codec read_uint8 (v ∷ []) v
unfolding read_uint8
Codec-uint8 v = record {
  reads = λ payload offset rest here at. ground (
    arith,
    length-at payload offset (v ∷ []) rest here at,
    get_or-here offset payload,
    ap (λ l. get_or l 0 0) at,
  );
  starves = λ payload offset n here short at.
      ground (arith, length-starved payload (v ∷ []) offset n here short at);
}

abbrev pub bytes16 : ℕ → Bytes
bytes16 v = (v / 2 ^ 8 % 256) ∷ (v % 256) ∷ []

abbrev pub bytes32 : ℕ → Bytes
bytes32 v = (v / 2 ^ 24 % 256) ∷ (v / 2 ^ 16 % 256) ∷ (v / 2 ^ 8 % 256) ∷ (v % 256) ∷ []

abbrev pub bytes64 : ℕ → Bytes
bytes64 v =
    (v / 2 ^ 56 % 256) ∷ (v / 2 ^ 48 % 256) ∷ (v / 2 ^ 40 % 256) ∷ (v / 2 ^ 32 % 256) ∷ bytes32 v

pub Codec-uint16 : (v : ℕ) → v < 2 ^ 16 → Codec read_uint16_be (bytes16 v) v
unfolding read_uint16_be
Codec-uint16 v small = record {
  reads = λ payload offset rest here at. ground (
    arith,
    length-at payload offset (bytes16 v) rest here at,
    get_or-here offset payload,
    ap (λ l. get_or l 0 0) at,
    get_or-at payload offset (bytes16 v) rest here at 1,
  );
  starves = λ payload offset n here short at.
      ground (arith, length-starved payload (bytes16 v) offset n here short at);
}

pub Codec-uint32 : (v : ℕ) → v < 2 ^ 32 → Codec read_uint32_be (bytes32 v) v
unfolding read_uint32_be
Codec-uint32 v small = record {
  reads = λ payload offset rest here at. ground (
    arith,
    length-at payload offset (bytes32 v) rest here at,
    get_or-here offset payload,
    ap (λ l. get_or l 0 0) at,
    get_or-at payload offset (bytes32 v) rest here at 1,
    get_or-at payload offset (bytes32 v) rest here at 2,
    get_or-at payload offset (bytes32 v) rest here at 3,
  );
  starves = λ payload offset n here short at.
      ground (arith, length-starved payload (bytes32 v) offset n here short at);
}

-- The loop of `ReadUint64BE` over the bytes that are left.
fold_bytes : ℕ → Bytes → ℕ → ℕ
fold_bytes zero bs value = value
fold_bytes (suc n) bs value = fold_bytes n (drop 1 bs) (value * 2 ^ 8 % 2 ^ 64 + get_or bs 0 0)

read_uint64_loop-fold :
    (n : ℕ) (payload : Bytes) (position value : ℕ)
    → read_uint64_loop n payload position value ≡ fold_bytes n (drop position payload) value
unfolding read_uint64_loop fold_bytes
read_uint64_loop-fold zero payload position value = refl
read_uint64_loop-fold (suc n) payload position value = rw (
  read_uint64_loop-fold n payload (position + 1),
  drop-add position 1 payload,
  get_or-here position payload,
)

fold_bytes64 : (v : ℕ) (rest : Bytes) → v < 2 ^ 64 → fold_bytes 8 (bytes64 v ++ rest) 0 ≡ v
unfolding fold_bytes
fold_bytes64 v rest small =
    let e7 : 0 * 2 ^ 8 % 2 ^ 64 + v / 2 ^ 56 % 256 ≡ v / 2 ^ 56 = omega arith in
    let e6 : v / 2 ^ 56 * 2 ^ 8 % 2 ^ 64 + v / 2 ^ 48 % 256 ≡ v / 2 ^ 48 = omega arith in
    let e5 : v / 2 ^ 48 * 2 ^ 8 % 2 ^ 64 + v / 2 ^ 40 % 256 ≡ v / 2 ^ 40 = omega arith in
    let e4 : v / 2 ^ 40 * 2 ^ 8 % 2 ^ 64 + v / 2 ^ 32 % 256 ≡ v / 2 ^ 32 = omega arith in
    let e3 : v / 2 ^ 32 * 2 ^ 8 % 2 ^ 64 + v / 2 ^ 24 % 256 ≡ v / 2 ^ 24 = omega arith in
    let e2 : v / 2 ^ 24 * 2 ^ 8 % 2 ^ 64 + v / 2 ^ 16 % 256 ≡ v / 2 ^ 16 = omega arith in
    let e1 : v / 2 ^ 16 * 2 ^ 8 % 2 ^ 64 + v / 2 ^ 8 % 256 ≡ v / 2 ^ 8 = omega arith in
    let e0 : v / 2 ^ 8 * 2 ^ 8 % 2 ^ 64 + v % 256 ≡ v = omega arith in
    rw (e7, e6, e5, e4, e3, e2, e1, e0)

pub Codec-uint64 : (v : ℕ) → v < 2 ^ 64 → Codec read_uint64_be (bytes64 v) v
unfolding read_uint64_be
Codec-uint64 v small = record {
  reads = λ payload offset rest here at. ground (
    arith,
    length-at payload offset (bytes64 v) rest here at,
    read_uint64_loop-fold 8 payload offset 0
        ∙ ap (λ l. fold_bytes 8 l 0) at
        ∙ fold_bytes64 v rest small,
  );
  starves = λ payload offset n here short at.
      ground (arith, length-starved payload (bytes64 v) offset n here short at);
}

pub Codec-chars : (s : Bytes) → Codec (read_chars (length s)) s s
unfolding read_chars
Codec-chars s = record {
  reads = λ payload offset rest here at.
      rw at (rw (take-append s rest) (ground (arith, length-at payload offset s rest here at)));
  starves = λ payload offset n here short at.
      ground (arith, length-starved payload s offset n here short at);
}

take-append_short : (n : ℕ) (bs cs : Bytes) → n < length bs → take n (bs ++ cs) ≡ take n bs
take-append_short n [] cs h = absurd (omega arith)
take-append_short zero (b ∷ bs) cs h = refl
take-append_short (suc n) (b ∷ bs) cs h = ap (λ l. b ∷ l) (take-append_short n bs cs (omega arith))

take-append_long :
    (n : ℕ) (bs cs : Bytes) → length bs ≤ n → take n (bs ++ cs) ≡ bs ++ take (n - length bs) cs
take-append_long n [] cs h = ap (λ k. take k cs) (omega arith)
take-append_long zero (b ∷ bs) cs h = absurd (omega arith)
take-append_long (suc n) (b ∷ bs) cs h =
    let e : suc n - suc (length bs) ≡ n - length bs = omega arith in
    rw e (ap (λ l. b ∷ l) (take-append_long n bs cs (omega arith)))

module _ {ℓ κ} {A : Type ℓ} {B : Type κ} (m : Reader A) (f : A → Reader B) {bs cs : Bytes} {a : A}
    {b : B} (first : Codec m bs a) (second : Codec (f a) cs b) where
  bind-reads :
      (payload : Bytes) (offset : ℕ) (rest : Bytes)
      → offset ≤ length payload
      → drop offset payload ≡ (bs ++ cs) ++ rest
      → (m >>= f) payload offset ≡ ok (b, offset + length (bs ++ cs))
  bind-reads payload offset rest here at =
      let at' : drop offset payload ≡ bs ++ (cs ++ rest) = at ∙ append_assoc bs cs rest in
      rw (first.reads payload offset (cs ++ rest) here at') (
        rw
          (second.reads payload (offset + length bs) rest
            (omega (arith, length-at payload offset bs (cs ++ rest) here at'))
            (drop-at payload offset bs (cs ++ rest) here at'))
          (ap (λ (k : ℕ). ok (b, k)) (omega (arith, length-append bs cs))))

  bind-starves :
      (payload : Bytes) (offset n : ℕ)
      → offset ≤ length payload
      → n < length (bs ++ cs)
      → drop offset payload ≡ take n (bs ++ cs)
      → (m >>= f) payload offset ≡ err underflow
  bind-starves payload offset n here short at = elim (Bool-cases (ltb n (length bs))) [
    | inl early ↦ rw (
        first.starves payload offset n here (ground arith)
          (at ∙ take-append_short n bs cs (ground arith)))
    | inr late ↦
        let at' : drop offset payload ≡ bs ++ take (n - length bs) cs =
          at ∙ take-append_long n bs cs (ground arith) in
        rw (first.reads payload offset (take (n - length bs) cs) here at') (
          second.starves payload (offset + length bs) (n - length bs)
            (omega (arith, length-at payload offset bs (take (n - length bs) cs) here at'))
            (ground (arith, length-append bs cs))
            (drop-at payload offset bs (take (n - length bs) cs) here at'))
  ]

  -- Two steps of a reader undo their two writers.
  pub Codec-bind : Codec (m >>= f) (bs ++ cs) b
  Codec-bind = record { reads = bind-reads; starves = bind-starves }

-- The bytes of `WriteString`: the length, then at most 255 characters.
abbrev pub clipped : Bytes → Bytes
clipped s = take (min (length s) 255) s

pub length-clipped : (s : Bytes) → length (clipped s) ≡ min (length s) 255
length-clipped s = omega (arith, length-take (min (length s) 255) s)

pub Codec-string : (s : Bytes) → Codec read_string (min (length s) 255 ∷ clipped s) (clipped s)
unfolding read_string
Codec-string s = Codec-bind read_uint8 read_chars (Codec-uint8 (min (length s) 255)) (
    subst (λ k. Codec (read_chars k) (clipped s) (clipped s)) (length-clipped s)
      (Codec-chars (clipped s)))
