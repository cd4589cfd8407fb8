-- ===== src/Listening/Ids.antt =====
-- The server takes the session ids that the page makes.
use labaiacinghiala.Common.{
  ℕ, ◌+◌, ◌/◌, ◌%◌, ◌<◌, ◌≤◌, true, ◌||◌, [], ◌∷◌, ◌≡◌, refl, arith, is_uuid, matches, is_hex, ◌==◌,
}
use labaiacinghiala.Ranges.{drop_text}
use labaiacinghiala.Listening.{hex_digit, hex_text, map_at, uuid_bytes, slice, create_uuid}
use labaiacinghiala.PlayHistory.Reports.{is_low_version, is_session_id}

hex_digit-is_hex : (n : ℕ) → n < 16 → is_hex (hex_digit n) ≡ true
unfolding hex_digit is_hex
hex_digit-is_hex n h = ground arith

high_digit : (n : ℕ) → is_hex (hex_digit (n % 256 / 16)) ≡ true
high_digit n = hex_digit-is_hex (n % 256 / 16) (omega arith)

low_digit : (n : ℕ) → is_hex (hex_digit (n % 256 % 16)) ≡ true
low_digit n = hex_digit-is_hex (n % 256 % 16) (omega arith)

version_digit : (n : ℕ) → hex_digit ((n % 256 % 16 + 64) / 16) ≡ b'4'
unfolding hex_digit
version_digit n = let four : (n % 256 % 16 + 64) / 16 ≡ 4 = omega arith in rw four refl

version_low : (n : ℕ) → is_hex (hex_digit ((n % 256 % 16 + 64) % 16)) ≡ true
version_low n = hex_digit-is_hex ((n % 256 % 16 + 64) % 16) (omega arith)

variant_low : (n : ℕ) → is_hex (hex_digit ((n % 256 % 64 + 128) % 16)) ≡ true
variant_low n = hex_digit-is_hex ((n % 256 % 64 + 128) % 16) (omega arith)

variant_digit :
    (n : ℕ)
    → let c = hex_digit ((n % 256 % 64 + 128) / 16) in
      (c == b'8' || c == b'9' || c == b'a' || c == b'b' || c == b'A' || c == b'B') ≡ true
unfolding hex_digit
variant_digit n =
    let v = (n % 256 % 64 + 128) / 16 in
    let from : 8 ≤ v = omega arith in let to : v ≤ 11 = omega arith in ground (arith, from, to)

-- The id that the page makes of any sixteen random numbers passes the server's pattern for the ids of
-- sessions.
pub create_uuid-is_session_id :
    (b0 b1 b2 b3 b4 b5 b6 b7 b8 b9 b10 b11 b12 b13 b14 b15 : ℕ)
    → is_session_id (
        create_uuid (
          b0 ∷ b1 ∷ b2 ∷ b3 ∷ b4 ∷ b5 ∷ b6 ∷ b7 ∷ b8 ∷ b9 ∷ b10 ∷ b11 ∷ b12 ∷ b13 ∷ b14 ∷ b15 ∷ []))
      ≡ true
unfolding is_session_id is_low_version is_uuid matches create_uuid uuid_bytes map_at hex_text slice
    drop_text
create_uuid-is_session_id b0 b1 b2 b3 b4 b5 b6 b7 b8 b9 b10 b11 b12 b13 b14 b15 =
    simp (high_digit, low_digit, version_digit, version_low, variant_low, variant_digit)
