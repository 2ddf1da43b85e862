-- ===== src/Tenant/Uuids.antt =====
-- `newUUIDv4` (server/internal/tenant/uuid.go).
use at_app.Base.{
  ℕ, zero, suc, length, refl, ap, ◌⊎◌, ◌≤◌, ◌+◌, ◌/◌, ◌%◌, List, [], ◌∷◌, ◌++◌, Option, none, some,
  ltb, if◌then◌else◌, ◌≡◌, ◌<◌, arith,
}

abbrev pub Bytes : Type 0
Bytes = List ℕ

-- (b & 0x0f) | 0x40: the mask is a remainder, and adds to the bits that it leaves out.
unfoldable pub version_byte : ℕ → ℕ
version_byte b = b % 16 + 64

-- (b & 0x3f) | 0x80
unfoldable pub variant_byte : ℕ → ℕ
variant_byte b = b % 64 + 128

-- b[6] and b[8] of the sixteen bytes that crypto/rand has filled in
unfoldable pub set_bits : Bytes → Bytes
unfolding version_byte variant_byte
set_bits (b0 ∷ b1 ∷ b2 ∷ b3 ∷ b4 ∷ b5 ∷ b6 ∷ b7 ∷ b8 ∷ rest) =
    b0 ∷ b1 ∷ b2 ∷ b3 ∷ b4 ∷ b5 ∷ version_byte b6 ∷ b7 ∷ variant_byte b8 ∷ rest
set_bits b = b

-- A hexadecimal digit, as its character.
unfoldable pub hex_digit : ℕ → ℕ
hex_digit n = if ltb n 10 then n + 48 else n + 87

-- %x of a slice of bytes
unfoldable pub hex : Bytes → List ℕ
unfolding hex_digit
hex [] = []
hex (b ∷ bs) = hex_digit (b / 16) ∷ hex_digit (b % 16) ∷ hex bs

-- b[from:] and b[:n]
unfoldable pub drop : ℕ → Bytes → Bytes
drop zero bs = bs
drop (suc n) [] = []
drop (suc n) (b ∷ bs) = drop n bs

unfoldable pub take : ℕ → Bytes → Bytes
take zero bs = []
take (suc n) [] = []
take (suc n) (b ∷ bs) = b ∷ take n bs

-- %x-%x-%x-%x-%x
unfoldable pub format_uuid : Bytes → List ℕ
unfolding hex drop take
format_uuid b =
    hex (take 4 b)
    ++ 45 ∷ hex (take 2 (drop 4 b))
    ++ 45 ∷ hex (take 2 (drop 6 b))
    ++ 45 ∷ hex (take 2 (drop 8 b))
    ++ 45 ∷ hex (take 6 (drop 10 b))

-- `rand.Read` fills the sixteen bytes, or fails.
unfoldable pub new_uuid_v4 : Option Bytes → Option (List ℕ)
unfolding set_bits format_uuid
new_uuid_v4 none = none
new_uuid_v4 (some b) = some (format_uuid (set_bits b))

unfoldable pub nth : ℕ → List ℕ → Option ℕ
nth n [] = none
nth zero (x ∷ xs) = some x
nth (suc n) (x ∷ xs) = nth n xs

version_digit : (b : ℕ) → hex_digit (version_byte b / 16) ≡ 52
unfolding hex_digit version_byte
version_digit b = let e : (b % 16 + 64) / 16 ≡ 4 = omega arith in rw e refl

variant_digit : (b : ℕ) → (8 ≤ variant_byte b / 16) × (variant_byte b / 16 < 12)
unfolding variant_byte
variant_digit b = (omega arith, omega arith)

-- The text of a version-4 UUID of RFC 4122.
pub record IsVersion4 (uuid : List ℕ) : Type 0 where
  pub size : length uuid ≡ 36
  pub dashes :
      (nth 8 uuid ≡ some 45)
      × (nth 13 uuid ≡ some 45)
      × (nth 18 uuid ≡ some 45)
      × (nth 23 uuid ≡ some 45)
  pub version : nth 14 uuid ≡ some 52
  pub variant :
      (nth 19 uuid ≡ some 56)
      ⊎ (nth 19 uuid ≡ some 57)
      ⊎ (nth 19 uuid ≡ some 97)
      ⊎ (nth 19 uuid ≡ some 98)

-- 8, 9, a or b
variant_cases :
    (n : ℕ)
    → 8 ≤ n
    → n < 12
    → (hex_digit n ≡ 56) ⊎ (hex_digit n ≡ 57) ⊎ (hex_digit n ≡ 97) ⊎ (hex_digit n ≡ 98)
unfolding hex_digit
variant_cases n l h = ground arith

-- Whatever sixteen bytes crypto/rand yields, the identifier is 36 characters long, has its dashes at
-- the places 8, 13, 18 and 23, the version 4 at the place 14, and a variant digit 8, 9, a or b at the
-- place 19.
pub new_uuid_v4-IsVersion4 :
    (b0 b1 b2 b3 b4 b5 b6 b7 b8 b9 b10 b11 b12 b13 b14 b15 : ℕ)
    → (uuid : List ℕ) × (new_uuid_v4 (
          some (
            b0 ∷ b1 ∷ b2 ∷ b3 ∷ b4 ∷ b5 ∷ b6 ∷ b7 ∷ b8 ∷ b9 ∷ b10 ∷ b11 ∷ b12 ∷ b13 ∷ b14 ∷ b15
            ∷ []))
        ≡ some uuid)
      × IsVersion4 uuid
unfolding new_uuid_v4 set_bits format_uuid hex drop take nth
new_uuid_v4-IsVersion4 b0 b1 b2 b3 b4 b5 b6 b7 b8 b9 b10 b11 b12 b13 b14 b15 = (
  _,
  refl,
  record {
    size = refl;
    dashes = (refl, refl, refl, refl);
    version = ap some (version_digit b6);
    variant =
        let (l, h) = variant_digit b8 in ground (arith, variant_cases (variant_byte b8 / 16) l h);
  },
)
