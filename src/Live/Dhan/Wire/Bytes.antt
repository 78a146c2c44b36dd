-- ===== src/Live/Dhan/Wire/Bytes.antt =====
-- The part of Python's `struct` that live/dhan/wire.py calls: little-endian fields, read in order. A
-- byte is a number below 256. A float32 is read as its pattern of 32 bits.
use trading_workstation.Prelude.{
  ℕ, zero, suc, ◌+◌, ◌-◌, ◌*◌, ◌≡◌, refl, ap, ◌∙◌, Option, none, some, List, [], ◌∷◌, ℤ, pos,
  negsuc, ltb, arith, if◌then◌else◌,
}

-- `none` is `struct.error`: the buffer is too short.
abbrev pub Reader : Type 0 → Type 0
Reader A = List ℕ → Option (A × List ℕ)

abbrev next : {A B : Type 0} → (A → Reader B) → Option (A × List ℕ) → Option (B × List ℕ)
next f none = none
next f (some (a, rest)) = f a rest

infixl 5 ◌>>=◌
abbrev pub ◌>>=◌ : {A B : Type 0} → Reader A → (A → Reader B) → Reader B
(m >>= f) bytes = next f (m bytes)

abbrev pub pure : {A : Type 0} → A → Reader A
pure a bytes = some (a, bytes)

-- B
abbrev pub u8 : Reader ℕ
u8 (a ∷ rest) = some (a, rest)
u8 [] = none

-- an unsigned number below 2 * half, as a signed one
abbrev pub signed : ℕ → ℕ → ℤ
signed half w = if ltb w half then pos w else negsuc (2 * half - 1 - w)

abbrev pub u16 : Reader ℕ
u16 (a ∷ b ∷ rest) = some (a + 256 * b, rest)
u16 _ = none

abbrev pub u32 : Reader ℕ
u32 (a ∷ b ∷ c ∷ d ∷ rest) = some (a + 256 * b + 65_536 * c + 16_777_216 * d, rest)
u32 _ = none

-- h
unfoldable pub i16 : Reader ℤ
i16 = do w ← u16; pure (signed 32_768 w)

-- i
unfoldable pub i32 : Reader ℤ
i32 = do w ← u32; pure (signed 2_147_483_648 w)

-- f
unfoldable pub f32 : Reader ℕ
f32 = u32

abbrev pub drop : ℕ → List ℕ → List ℕ
drop zero bytes = bytes
drop (suc n) [] = []
drop (suc n) (a ∷ bytes) = drop n bytes

abbrev fst_of : {A : Type 0} → Option (A × List ℕ) → Option A
fst_of none = none
fst_of (some (a, rest)) = some a

-- `unpack_from(data, offset)`
abbrev pub unpack_from : {A : Type 0} → Reader A → List ℕ → ℕ → Option A
unpack_from reader bytes offset = fst_of (reader (drop offset bytes))

-- One field read, and then the others.
pub read_then :
    {A B : Type 0} (m : Reader A) (f : A → Reader B) (bytes : List ℕ) {rest : List ℕ} {a : A}
    {r : B × List ℕ}
    → m bytes ≡ some (a, rest)
    → f a rest ≡ some r
    → (m >>= f) bytes ≡ some r
read_then m f bytes e k = ap (next f) e ∙ k

drop_nil : (n : ℕ) → drop n [] ≡ []
drop_nil zero = refl
drop_nil (suc n) = refl

suc_plus : (m n : ℕ) → suc m + n ≡ suc (m + n)
suc_plus m n = omega arith

pub drop-add : (m n : ℕ) (bytes : List ℕ) → drop (m + n) bytes ≡ drop n (drop m bytes)
drop-add zero n bytes = ground arith
drop-add (suc m) n [] = ground (arith, drop_nil n, drop_nil (suc m + n))
drop-add (suc m) n (b ∷ bytes) = ap (λ k. drop k (b ∷ bytes)) (suc_plus m n) ∙ drop-add m n bytes

next-pure : {A : Type 0} (o : Option (A × List ℕ)) → next pure o ≡ o
next-pure none = refl
next-pure (some r) = refl

pub >>=-pure : {A : Type 0} (m : Reader A) (bytes : List ℕ) → (m >>= pure) bytes ≡ m bytes
>>=-pure m bytes = next-pure (m bytes)
