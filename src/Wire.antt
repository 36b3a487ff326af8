-- ===== src/Wire.antt =====
-- Byte strings as every codec of the repository reads and writes them: a byte is a natural number
-- below 256, `io.ReadFull` takes a prefix, `binary.BigEndian` lays out two and four bytes.
use outbound.Prelude.{ltb, if◌then◌else◌, length, length-append, take, drop, take-append_exact}
use outbound.Prelude.{drop-append_exact, drop-take, ℕ, ◌+◌, ◌*◌, ◌/◌, ◌%◌, ◌^◌, ◌≤◌, ◌<◌, ◌≡◌}
use outbound.Prelude.{refl, false, Option, none, some, List, [], ◌∷◌, ◌++◌, arith}

infixl 5 ◌>>=◌
abbrev pub ◌>>=◌ {ℓ κ} : {A : Type ℓ} {B : Type κ} → Option A → (A → Option B) → Option B
none >>= f = none
some a >>= f = f a

abbrev pub Bytes : Type 0
Bytes = List ℕ

abbrev pub IsByte : ℕ → Type 0
IsByte b = b < 256

abbrev pub IsU16 : ℕ → Type 0
IsU16 v = v < 2 ^ 16

abbrev pub IsU32 : ℕ → Type 0
IsU32 v = v < 2 ^ 32

-- `binary.BigEndian.PutUint16` and `PutUint32`
abbrev pub put_u16 : ℕ → Bytes
put_u16 v = v / 256 % 256 ∷ v % 256 ∷ []

abbrev pub put_u32 : ℕ → Bytes
put_u32 v = v / 2 ^ 24 % 256 ∷ v / 2 ^ 16 % 256 ∷ v / 2 ^ 8 % 256 ∷ v % 256 ∷ []

-- `binary.BigEndian.Uint16` and `Uint32`; a shorter slice, where Go panics, is read as 0 and is
-- excluded by a length check at every use.
abbrev pub uint16 : Bytes → ℕ
uint16 (a ∷ b ∷ r) = a * 256 + b
uint16 r = 0

abbrev pub uint32 : Bytes → ℕ
uint32 (a ∷ b ∷ c ∷ d ∷ r) = ((a * 256 + b) * 256 + c) * 256 + d
uint32 r = 0

-- `io.ReadFull` of `n` bytes, with what is left in the reader; `none` is its error.
unfoldable pub read_full : ℕ → Bytes → Option (Bytes × Bytes)
read_full n r = if ltb (length r) n then none else some (take n r, drop n r)

abbrev pub read_byte : Bytes → Option (ℕ × Bytes)
read_byte [] = none
read_byte (b ∷ r) = some (b, r)

pub read_full-append :
    (n : ℕ) (xs ys : Bytes) → length xs ≡ n → read_full n (xs ++ ys) ≡ some (xs, ys)
unfolding read_full
read_full-append n xs ys h =
    let enough : ltb (length (xs ++ ys)) n ≡ false = ground (arith, length-append xs ys) in
    rw (enough, take-append_exact n xs ys h, drop-append_exact n xs ys h)

pub read_full-short : (n : ℕ) (r : Bytes) → length r < n → read_full n r ≡ none
unfolding read_full
read_full-short n r h = ground arith

pub read_full-enough :
    (n : ℕ) (r : Bytes) → n ≤ length r → read_full n r ≡ some (take n r, drop n r)
unfolding read_full
read_full-enough n r h = ground arith

pub uint16-put_u16 : (v : ℕ) (r : Bytes) → IsU16 v → uint16 (put_u16 v ++ r) ≡ v
uint16-put_u16 v r h = omega arith

pub uint32-put_u32 : (v : ℕ) (r : Bytes) → IsU32 v → uint32 (put_u32 v ++ r) ≡ v
uint32-put_u32 v r h = omega arith

pub uint16-take : (r : Bytes) → uint16 (take 2 r) ≡ uint16 r
uint16-take [] = refl
uint16-take (a ∷ []) = refl
uint16-take (a ∷ b ∷ r) = refl

-- Two bytes read behind a field of a buffer of known length.
pub uint16-drop-take : (n : ℕ) (r : Bytes) → uint16 (drop n (take (n + 2) r)) ≡ uint16 (drop n r)
uint16-drop-take n r = rw (drop-take n 2 r) (uint16-take (drop n r))
