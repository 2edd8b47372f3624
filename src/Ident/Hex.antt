-- ===== src/Ident/Hex.antt =====
-- newID of internal/session/id.go: sixteen random bytes as a version 4 UUID.
use mathlib.Core.List.{append-nil}
use Prim.Native.Nat.{bit_and, bit_or}
use boxwarden.Prelude.{
  Bool, Bytes, Option, Outcome, [], ap, arith, err, false, if◌then◌else◌, length, ltb, none, not,
  ok, refl, some, suc, sym, true, zero, ℕ, ◌%◌, ◌&&◌, ◌++◌, ◌+◌, ◌-◌, ◌/◌, ◌<◌, ◌==◌, ◌∙◌, ◌∷◌, ◌≡◌,
  ◌≤◌,
}
use boxwarden.Ident.{dash_index, lower_hex, uuid_chars, valid_uuid}

-- A digit of `hex.EncodeToString`.
unfoldable pub hex_digit : ℕ → ℕ
hex_digit n = if ltb n 10 then b'0' + n else b'a' + (n - 10)

unfoldable pub hex_encode : Bytes → Bytes
unfolding hex_digit
hex_encode [] = []
hex_encode (b ∷ bs) = hex_digit (b / 16) ∷ hex_digit (b % 16) ∷ hex_encode bs

-- The first sixteen bytes of the source with the version and variant bits set, in five groups;
-- a source that is shorter fails `io.ReadFull`.
unfoldable pub new_id : Bytes → Outcome Bytes
unfolding hex_encode
new_id
      (b0 ∷ b1 ∷ b2 ∷ b3 ∷ b4 ∷ b5 ∷ b6 ∷ b7 ∷ b8 ∷ b9 ∷ b10 ∷ b11 ∷ b12 ∷ b13 ∷ b14 ∷ b15 ∷ rest) =
    let b6' = bit_or (bit_and b6 0x0f) 0x40 in
    let b8' = bit_or (bit_and b8 0x3f) 0x80 in
    ok (
      hex_encode (b0 ∷ b1 ∷ b2 ∷ b3 ∷ [])
      ++ (b'-'
          ∷ (hex_encode (b4 ∷ b5 ∷ [])
              ++ (b'-'
                  ∷ (hex_encode (b6' ∷ b7 ∷ [])
                      ++ (b'-'
                          ∷ (hex_encode (b8' ∷ b9 ∷ [])
                              ++ (b'-' ∷ hex_encode (b10 ∷ b11 ∷ b12 ∷ b13 ∷ b14 ∷ b15 ∷ [])))))))))
new_id _ = err

abbrev pub AreBytes : Bytes → Type 0
AreBytes [] = Unit
AreBytes (b ∷ bs) = (b < 256) × AreBytes bs

hex_digit-lower_hex : (n : ℕ) → n < 16 → lower_hex (hex_digit n) ≡ true
unfolding hex_digit
hex_digit-lower_hex n h = ground arith

uuid_chars-pair :
    (i b : ℕ) (rest : Bytes)
    → dash_index i ≡ false
    → dash_index (i + 1) ≡ false
    → b < 256
    → uuid_chars i (hex_digit (b / 16) ∷ hex_digit (b % 16) ∷ rest) ≡ uuid_chars (i + 1 + 1) rest
unfolding uuid_chars
uuid_chars-pair i b rest d e h = rw d (
    rw (hex_digit-lower_hex (b / 16) (omega arith))
      (rw e (rw (hex_digit-lower_hex (b % 16) (omega arith)))))

uuid_chars-dash :
    (i : ℕ) (rest : Bytes)
    → dash_index i ≡ true
    → uuid_chars i (b'-' ∷ rest) ≡ uuid_chars (i + 1) rest
unfolding uuid_chars
uuid_chars-dash i rest d = rw d

-- No dash position lies in the digits of a group that starts at `i`, and the position behind it.
abbrev clear_of_dash : ℕ → Bytes → Bool
clear_of_dash i [] = true
clear_of_dash i (b ∷ bs) =
    not (dash_index i) && not (dash_index (i + 1)) && clear_of_dash (i + 1 + 1) bs

abbrev behind : ℕ → Bytes → ℕ
behind i [] = i
behind i (b ∷ bs) = behind (i + 1 + 1) bs

uuid_chars-group :
    (i : ℕ) (bs rest : Bytes)
    → clear_of_dash i bs ≡ true
    → AreBytes bs
    → uuid_chars i (hex_encode bs ++ rest) ≡ uuid_chars (behind i bs) rest
unfolding hex_encode
uuid_chars-group i [] rest c a = refl
uuid_chars-group i (b ∷ bs) rest c (h, a) =
    uuid_chars-pair i b _ (ground arith) (ground arith) h
    ∙ uuid_chars-group (i + 1 + 1) bs rest (ground arith) a

-- A group, and the dash behind it.
uuid_chars-section :
    (i : ℕ) (bs rest : Bytes)
    → clear_of_dash i bs ≡ true
    → AreBytes bs
    → dash_index (behind i bs) ≡ true
    → uuid_chars i (hex_encode bs ++ (b'-' ∷ rest)) ≡ uuid_chars (behind i bs + 1) rest
uuid_chars-section i bs rest c a d =
    uuid_chars-group i bs (b'-' ∷ rest) c a ∙ uuid_chars-dash (behind i bs) rest d

-- A test that holds of the first `k` numbers.
holds_to : (ℕ → Bool) → ℕ → Bool
holds_to test zero = true
holds_to test (suc k) = holds_to test k && test k

holds_to_at : (test : ℕ → Bool) (k b : ℕ) → b < k → holds_to test k ≡ true → test b ≡ true
unfolding holds_to
holds_to_at test zero b l h = elim l [ ]
holds_to_at test (suc k) b l h = ground (arith, holds_to_at test k b)

version_table : holds_to (λ b. bit_or (bit_and b 0x0f) 0x40 / 16 == 4) 256 ≡ true
unfolding holds_to
version_table = refl

variant_table : holds_to (λ b. ltb (bit_or (bit_and b 0x3f) 0x80) 256) 256 ≡ true
unfolding holds_to
variant_table = refl

version_nibble : (b : ℕ) → b < 256 → bit_or (bit_and b 0x0f) 0x40 / 16 ≡ 4
version_nibble b h =
    let e = holds_to_at (λ b. bit_or (bit_and b 0x0f) 0x40 / 16 == 4) 256 b h version_table in
    ground arith

variant_byte : (b : ℕ) → b < 256 → bit_or (bit_and b 0x3f) 0x80 < 256
variant_byte b h =
    let e = holds_to_at (λ b. ltb (bit_or (bit_and b 0x3f) 0x80) 256) 256 b h variant_table in
    ground arith

abbrev pub get_elem? : Bytes → ℕ → Option ℕ
get_elem? [] i = none
get_elem? (x ∷ xs) zero = some x
get_elem? (x ∷ xs) (suc i) = get_elem? xs i

-- What the identity of sixteen or more random bytes is.
pub record IsVersion4 (id : Bytes) : Type 0 where
  pub valid : valid_uuid id ≡ true
  pub version : get_elem? id 14 ≡ some b'4'

-- Sixteen or more random bytes always give an identity, and it is a valid lower-case UUID whose
-- version digit, at index 14, is 4.
pub new_id-IsVersion4 :
    (source : Bytes)
    → AreBytes source
    → 16 ≤ length source
    → (id : Bytes) × (new_id source ≡ ok id) × IsVersion4 id
unfolding new_id valid_uuid
new_id-IsVersion4
      (b0 ∷ b1 ∷ b2 ∷ b3 ∷ b4 ∷ b5 ∷ b6 ∷ b7 ∷ b8 ∷ b9 ∷ b10 ∷ b11 ∷ b12 ∷ b13 ∷ b14 ∷ b15 ∷ rest) h
      l =
    let v : bit_or (bit_and b6 0x0f) 0x40 / 16 ≡ 4 = version_nibble b6 (omega arith) in
    let w : bit_or (bit_and b8 0x3f) 0x80 < 256 = variant_byte b8 (omega arith) in
    let g5 : Bytes = hex_encode (b10 ∷ b11 ∷ b12 ∷ b13 ∷ b14 ∷ b15 ∷ []) in
    let g4 : Bytes = hex_encode (bit_or (bit_and b8 0x3f) 0x80 ∷ b9 ∷ []) ++ (b'-' ∷ g5) in
    let g3 : Bytes = hex_encode (bit_or (bit_and b6 0x0f) 0x40 ∷ b7 ∷ []) ++ (b'-' ∷ g4) in
    let g2 : Bytes = hex_encode (b4 ∷ b5 ∷ []) ++ (b'-' ∷ g3) in
    (
      hex_encode (b0 ∷ b1 ∷ b2 ∷ b3 ∷ []) ++ (b'-' ∷ g2),
      refl,
      record {
        valid =
            uuid_chars-section 0 (b0 ∷ b1 ∷ b2 ∷ b3 ∷ []) g2 refl (omega arith) refl
            ∙ uuid_chars-section 9 (b4 ∷ b5 ∷ []) g3 refl (omega arith) refl
            ∙ uuid_chars-section 14 (bit_or (bit_and b6 0x0f) 0x40 ∷ b7 ∷ []) g4 refl (omega arith)
                refl
            ∙ uuid_chars-section 19 (bit_or (bit_and b8 0x3f) 0x80 ∷ b9 ∷ []) g5 refl (omega arith)
                refl
            ∙ ap (uuid_chars 24) (sym (append-nil g5))
            ∙ uuid_chars-group 24 (b10 ∷ b11 ∷ b12 ∷ b13 ∷ b14 ∷ b15 ∷ []) [] refl (omega arith);
        version = rw v refl;
      },
    )
new_id-IsVersion4 _ a l = absurd (omega arith)
