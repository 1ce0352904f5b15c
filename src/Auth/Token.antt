-- ===== src/Auth/Token.antt =====
-- internal/auth/token.go: session tokens. Base64, JSON and HMAC-SHA256 are the operations of a
-- codec, with the laws that their documentation states. Instants are nanoseconds; the instants in
-- the claims are Unix seconds, and they and the versions are natural numbers.
pub mod Checks
use jo_ei.Prelude.{
  ℕ, suc, ◌+◌, ◌/◌, ◌%◌, ◌≡◌, Bool, true, false, not, List, [], ◌∷◌, ◌++◌, Option, none, some, ltb,
  leb, ◌==◌, length, any, if◌then◌else◌,
}
use jo_ei.Prelude.Text.{Text, text_eq, codes, split_on}

abbrev pub Bytes : Type 0
Bytes = List ℕ

pub record Claims : Type 0 where
  pub sub : Text
  pub ver : ℕ
  pub typ : Text
  pub iat : ℕ
  pub exp : ℕ
  pub jti : Text

pub data TokenError : Type 0 where
  malformed bad_signature expired wrong_type : TokenError

pub data Verified (A : Type 0) : Type 0 where
  valid : A → Verified A
  refused : TokenError → Verified A

abbrev pub type_access : Text
type_access = codes "access"

abbrev pub type_refresh : Text
type_refresh = codes "refresh"

abbrev pub min_secret_len : ℕ
min_secret_len = 32

abbrev pub alg_hs256 : Text
alg_hs256 = codes "HS256"

-- base64.RawURLEncoding, json.Marshal and json.Unmarshal of the header's algorithm and of the
-- claims, and the HMAC of a text under a secret.
pub record Codec : Type 0 where
  pub encode : Bytes → Text
  pub decode : Text → Option Bytes
  pub header_json : Text → Bytes
  pub parse_header : Bytes → Option Text
  pub claims_json : Claims → Bytes
  pub parse_claims : Bytes → Option Claims
  pub mac : Bytes → Text → Bytes

-- Base64 text has no dot, and what was encoded is read back.
pub record CodecLaws (k : Codec) : Type 0 where
  pub encode_no_dot : (b : Bytes) → any (λ c. c == b'.') (k.encode b) ≡ false
  pub decode-encode : (b : Bytes) → k.decode (k.encode b) ≡ some b
  pub parse_header-json : (alg : Text) → k.parse_header (k.header_json alg) ≡ some alg
  pub parse_claims-json : (c : Claims) → k.parse_claims (k.claims_json c) ≡ some c

abbrev pub second : ℕ
second = 1000000000

abbrev pub unix : ℕ → ℕ
unix t = t / second

-- NewSigner: the secret that is kept.
unfoldable pub new_signer : Bytes → Option Bytes
new_signer secret = if ltb (length secret) min_secret_len then none else some secret

-- hex.EncodeToString
abbrev pub hex_digit : ℕ → ℕ
hex_digit d = if ltb d 10 then b'0' + d else 87 + d

unfoldable pub hex : Bytes → Text
hex [] = []
hex (b ∷ bs) = hex_digit (b / 16) ∷ hex_digit (b % 16) ∷ hex bs

abbrev pub join_dot : Text → Text → Text
join_dot a b = a ++ b'.' ∷ b

unfoldable pub issued_claims : ℕ → Bytes → Text → ℕ → Text → ℕ → Claims
issued_claims now raw name ver typ ttl = record {
  sub = name;
  ver = ver;
  typ = typ;
  iat = unix now;
  exp = unix (now + ttl);
  jti = hex raw;
}

unfoldable pub signed : Codec → Bytes → Text → Text
signed k secret signing = join_dot signing (k.encode (k.mac secret signing))

-- Issue: none where no random id could be read. Marshalling these structs does not fail.
unfoldable pub issue : Codec → Bytes → ℕ → Option Bytes → Text → ℕ → Text → ℕ → Option Text
issue k secret now none name ver typ ttl = none
issue k secret now (some raw) name ver typ ttl = some (
    signed k secret (
      join_dot (k.encode (k.header_json alg_hs256))
        (k.encode (k.claims_json (issued_claims now raw name ver typ ttl)))))

-- The parts of a token.
unfoldable pub split_dots : Text → List Text
split_dots = split_on b'.'

infixl 5 ◌>>=◌ ◌>>◌
abbrev pub ◌>>=◌ : {A B : Type 0} → Verified A → (A → Verified B) → Verified B
valid a >>= f = f a
refused e >>= f = refused e

abbrev pub ◌>>◌ : {B : Type 0} → Verified (Unit {0}) → Verified B → Verified B
m >> n = m >>= λ _. n

abbrev pub require : Bool → TokenError → Verified (Unit {0})
require true e = valid tt
require false e = refused e

abbrev pub or_malformed : {A : Type 0} → Option A → Verified A
or_malformed none = refused malformed
or_malformed (some a) = valid a

abbrev pub is_blank : Text → Bool
is_blank [] = true
is_blank (c ∷ s) = false

-- The checks of the three parts, the signature first.
unfoldable pub verify_parts : Codec → Bytes → ℕ → Text → Text → Text → Text → Verified Claims
verify_parts k secret now want h p s = do
  sig ← or_malformed (k.decode s)
  require (text_eq sig (k.mac secret (join_dot h p))) bad_signature
  raw_header ← or_malformed (k.decode h)
  alg ← or_malformed (k.parse_header raw_header)
  require (text_eq alg alg_hs256) bad_signature
  raw_payload ← or_malformed (k.decode p)
  c ← or_malformed (k.parse_claims raw_payload)
  require (not (is_blank c.sub)) malformed
  require (text_eq c.typ want) wrong_type
  require (not (leb c.exp (unix now))) expired
  valid c

pub verify_split : Codec → Bytes → ℕ → Text → List Text → Verified Claims
verify_split k secret now want (h ∷ p ∷ s ∷ []) = verify_parts k secret now want h p s
verify_split k secret now want parts = refused malformed

-- Verify
unfoldable pub verify : Codec → Bytes → ℕ → Text → Text → Verified Claims
unfolding verify_split
verify k secret now token want = verify_split k secret now want (split_dots token)
