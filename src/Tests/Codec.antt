-- ===== src/Tests/Codec.antt =====
-- A codec for the runs: numbers for bytes, framed by zeros, moved past the dot.
use jo_ei.Prelude.{
  ℕ, zero, suc, ◌+◌, ◌-◌, ◌≡◌, refl, ap, false, [], ◌∷◌, ◌++◌, Option, none, some, any, map, ◌==◌,
  arith,
}
use jo_ei.Prelude.Text.{Text}
use jo_ei.Auth.Token.{Bytes, Claims, Codec, CodecLaws}

abbrev frame : Text → Bytes → Bytes
frame [] rest = 0 ∷ rest
frame (c ∷ s) rest = suc c ∷ frame s rest

abbrev unframe : Bytes → Option (Text × Bytes)
unframe [] = none
unframe (zero ∷ rest) = some ([], rest)
unframe (suc c ∷ b) = elim (unframe b) [ none ↦ none | some (s, rest) ↦ some (c ∷ s, rest) ]

unframe-frame : (s : Text) (rest : Bytes) → unframe (frame s rest) ≡ some (s, rest)
unframe-frame [] rest = refl
unframe-frame (c ∷ s) rest = rw (unframe-frame s rest) refl

abbrev write_claims : Claims → Bytes
write_claims c = c.ver ∷ c.iat ∷ c.exp ∷ frame c.sub (frame c.typ (frame c.jti []))

read_texts : ℕ → ℕ → ℕ → Bytes → Option Claims
read_texts ver iat exp b = elim (unframe b) [
  | none ↦ none
  | some (sub, b1) ↦ elim (unframe b1) [
    | none ↦ none
    | some (typ, b2) ↦ elim (unframe b2) [
      | none ↦ none
      | some (jti, b3) ↦
          some (record { sub = sub; ver = ver; typ = typ; iat = iat; exp = exp; jti = jti })
    ]
  ]
]

abbrev read_claims : Bytes → Option Claims
read_claims (ver ∷ iat ∷ exp ∷ b) = read_texts ver iat exp b
read_claims [] = none
read_claims (a ∷ []) = none
read_claims (a ∷ b ∷ []) = none

abbrev shift : Bytes → Text
shift = map (λ c. c + 47)

abbrev unshift : Text → Bytes
unshift = map (λ c. c - 47)

unfoldable pub codec : Codec
unfolding read_texts
codec = record {
  encode = shift;
  decode = λ t. some (unshift t);
  header_json = λ alg. alg;
  parse_header = λ b. some b;
  claims_json = write_claims;
  parse_claims = read_claims;
  mac = λ secret text. secret ++ text;
}

shift_no_dot : (b : Bytes) → any (λ c. c == b'.') (shift b) ≡ false
unfolding any
shift_no_dot [] = refl
shift_no_dot (c ∷ b) = ground (arith, shift_no_dot b)

unshift-shift : (b : Bytes) → unshift (shift b) ≡ b
unshift-shift [] = refl
unshift-shift (c ∷ b) = ground (arith, unshift-shift b)

read_write : (c : Claims) → read_claims (write_claims c) ≡ some c
unfolding read_texts
read_write c =
    rw
      (
        unframe-frame c.sub (frame c.typ (frame c.jti [])),
        unframe-frame c.typ (frame c.jti []),
        unframe-frame c.jti [],
        read_texts,
      )
      refl

pub codec_laws : CodecLaws codec
unfolding codec
codec_laws = record {
  encode_no_dot = shift_no_dot;
  decode-encode = λ b. ap some (unshift-shift b);
  parse_header-json = λ alg. refl;
  parse_claims-json = read_write;
}
