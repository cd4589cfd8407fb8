-- ===== src/Pairing/Roundtrip.antt =====
-- The token that createPairingInvite hands out is read back by parseInviteToken.
use labaiacinghiala.Common.{
  ℕ, ◌≤◌, ◌≢◌, Bool, true, false, not, ◌&&◌, some, List, [], ◌∷◌, ◌++◌, ◌≡◌, refl, ap, ◌∙◌, arith,
  Text, codes, text_eq, text_eq_refl, is_empty, is_space, drop_space, trim, split, join, is_uuid,
  is_uuid-all, is_hex, all, length, ◌==◌, ok,
}
use mathlib.Core.List.{reverse, reverse-reverse, reverse-cons, append_assoc}
use labaiacinghiala.DeviceAuth.{Crypto, is_base64}
use labaiacinghiala.Pairing.Tokens.{
  PairingCrypto, invite_prefix, invite_token, as_secret, decode_base64url, parse_parts,
  parse_invite_token,
}

all-append : (p : ℕ → Bool) (s t : Text) → all p s ≡ true → all p t ≡ true → all p (s ++ t) ≡ true
all-append p [] t h k = k
all-append p (c ∷ s) t h k = ground (arith, all-append p s t)

all_implied :
    (p q : ℕ → Bool)
    → ((c : ℕ) → p c ≡ true → q c ≡ true)
    → (s : Text) → all p s ≡ true
    → all q s ≡ true
all_implied p q h [] k = refl
all_implied p q h (c ∷ s) k = ground (arith, h c, all_implied p q h s)

-- A character that is neither white space nor a dot.
abbrev is_solid : ℕ → Bool
is_solid c = not (is_space c) && not (c == b'.')

split_part :
    (s : Text) (rest : Text)
    → all is_solid s ≡ true
    → split b'.' (s ++ b'.' ∷ rest) ≡ s ∷ split b'.' rest
unfolding split
split_part [] rest h = refl
split_part (c ∷ s) rest h =
    let other : (c == b'.') ≡ false = ground arith in
    rw (other, split_part s rest (ground arith)) refl

split_last : (s : Text) → all is_solid s ≡ true → split b'.' s ≡ s ∷ []
unfolding split
split_last [] h = refl
split_last (c ∷ s) h =
    let other : (c == b'.') ≡ false = ground arith in rw (other, split_last s (ground arith)) refl

drop_space-solid : (s : Text) → all (λ c. not (is_space c)) s ≡ true → drop_space s ≡ s
unfolding drop_space
drop_space-solid [] h = refl
drop_space-solid (c ∷ s) h = ground arith

all-reverse : (p : ℕ → Bool) (s : Text) → all p s ≡ true → all p (reverse s) ≡ true
all-reverse p [] h = refl
all-reverse p (c ∷ s) h =
    rw (reverse-cons c s)
      (all-append p (reverse s) (c ∷ []) (all-reverse p s (ground arith)) (ground arith))

abbrev is_dark : ℕ → Bool
is_dark c = not (is_space c)

-- trim leaves a text with no white space as it is.
trim-dark : (s : Text) → all is_dark s ≡ true → trim s ≡ s
unfolding trim
trim-dark s h =
    rw (drop_space-solid s h)
      (ap reverse (drop_space-solid (reverse s) (all-reverse is_dark s h)) ∙ reverse-reverse s)

solid_dark : (s : Text) → all is_solid s ≡ true → all is_dark s ≡ true
solid_dark s h = all_implied is_solid is_dark (λ c e. ground arith) s h

low_solid : (c : ℕ) → 45 ≤ c → c ≤ 122 → c ≢ 46 → is_solid c ≡ true
unfolding is_space
low_solid c low high other = ground arith

base64_solid : (s : Text) → all is_base64 s ≡ true → all is_solid s ≡ true
unfolding is_base64
base64_solid s h =
    all_implied is_base64 is_solid (λ c e. low_solid c (ground arith) (ground arith) (ground arith))
      s h

uuid_solid : (s : Text) → is_uuid s ≡ true → all is_solid s ≡ true
unfolding is_hex is_space
uuid_solid s h =
    is_uuid-all is_solid (λ c e. low_solid c (ground arith) (ground arith) (ground arith)) refl s h

-- What Buffer does with 32 random bytes: their text is not empty, has the characters of base64url and
-- is read back.
pub record Encodes (crypto : Crypto) (secret : List ℕ) : Type 0 where
  pub filled : is_empty (crypto.encode secret) ≡ false
  pub alphabet : all is_base64 (crypto.encode secret) ≡ true
  pub decoded : crypto.decode (crypto.encode secret) ≡ secret
  pub sized : length secret ≡ 32

secret-decode :
    (crypto : PairingCrypto) (secret : List ℕ)
    → Encodes crypto.base secret
    → decode_base64url crypto (some (crypto.base.encode secret)) 32 ≡ ok secret
unfolding decode_base64url
secret-decode crypto secret e =
    rw
      (
        e.filled,
        e.alphabet,
        e.decoded,
        e.sized,
        text_eq_refl (crypto.base.encode secret),
        decode_base64url,
      )
      refl

token_form :
    (crypto : PairingCrypto) (id : Text) (secret : List ℕ)
    → invite_token crypto id secret
      ≡ codes "baia1" ++ (b'.' ∷ (id ++ (b'.' ∷ crypto.base.encode secret)))
unfolding invite_token join
token_form crypto id secret =
    ap (λ (t : Text). codes "baia1." ++ t) (append_assoc id (b'.' ∷ []) (crypto.base.encode secret))

module _ (crypto : PairingCrypto) (id : Text) (secret : List ℕ) (uuid : is_uuid id ≡ true)
    (e : Encodes crypto.base secret) where
  encoded : Text
  encoded = crypto.base.encode secret

  token : Text
  token = codes "baia1" ++ (b'.' ∷ (id ++ (b'.' ∷ encoded)))

  encoded_solid : all is_solid encoded ≡ true
  unfolding encoded
  encoded_solid = base64_solid (crypto.base.encode secret) e.alphabet

  token_dark : all is_dark token ≡ true
  unfolding token is_space
  token_dark =
      all-append is_dark id (b'.' ∷ encoded) (solid_dark id (uuid_solid id uuid))
        (solid_dark encoded encoded_solid)

  token-split : split b'.' token ≡ invite_prefix ∷ id ∷ encoded ∷ []
  unfolding token is_space
  token-split =
      split_part (codes "baia1") (id ++ (b'.' ∷ encoded)) refl
      ∙ ap (λ (ts : List Text). codes "baia1" ∷ ts)
          (split_part id encoded (uuid_solid id uuid)
            ∙ ap (λ (ts : List Text). id ∷ ts) (split_last encoded encoded_solid))

  token_parts : parse_parts crypto (invite_prefix ∷ id ∷ encoded ∷ []) ≡ ok (id, secret)
  unfolding parse_parts as_secret encoded text_eq
  token_parts = rw (uuid, secret-decode crypto secret e, parse_parts, as_secret) refl

-- parseInviteToken reads the token of an invite back to the invite's id and secret, where the id is a
-- UUID and the encoding of the secret is as Buffer documents it.
pub parse_invite_token-invite_token :
    (crypto : PairingCrypto) (id : Text) (secret : List ℕ)
    → is_uuid id ≡ true
    → Encodes crypto.base secret
    → parse_invite_token crypto (some (invite_token crypto id secret)) ≡ ok (id, secret)
unfolding parse_invite_token token encoded
parse_invite_token-invite_token crypto id secret uuid e = rw (token_form crypto id secret) (
    ap (λ (t : Text). parse_parts crypto (split b'.' t))
      (trim-dark (token crypto id secret uuid e) (token_dark crypto id secret uuid e))
    ∙ ap (parse_parts crypto) (token-split crypto id secret uuid e)
    ∙ token_parts crypto id secret uuid e)
