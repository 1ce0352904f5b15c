-- ===== src/Auth/Token/Checks.antt =====
-- What Verify accepts, and that it accepts what Issue has issued.
use jo_ei.Prelude.{
  ◌++◌, ℕ, ◌↔◌, ◌+◌, ◌≡◌, ◌<◌, refl, sym, ◌∙◌, ap, Bool, true, false, not, List, [], ◌∷◌, Option,
  none, some, leb, ◌==◌, any, some_inj, arith,
}
use jo_ei.Prelude.Text.{
  split_on, split_on-one, split_on-append, Text, text_eq, text_eq_refl, eq_of_text_eq, text_eq_iff,
}
use jo_ei.Auth.Token.Claims.{typ}
use jo_ei.Auth.Token.{
  Bytes, Codec, CodecLaws, Claims, Verified, valid, refused, TokenError, join_dot, alg_hs256, unix,
  split_dots, verify, verify_split, verify_parts, issue, issued_claims, signed, is_blank, ◌>>=◌,
  require, or_malformed,
}

abbrev NoDot : Text → Type 0
NoDot s = any (λ c. c == b'.') s ≡ false

split_join : (s t : Text) → NoDot s → split_dots (join_dot s t) ≡ s ∷ split_dots t
unfolding split_dots
split_join s t h =
    split_on-append b'.' s t ∙ ap (λ ps. ps ++ split_on b'.' t) (split_on-one b'.' s h)

join_assoc : (a b c : Text) → join_dot (join_dot a b) c ≡ join_dot a (join_dot b c)
join_assoc [] b c = refl
join_assoc (x ∷ a) b c = ap (λ t. x ∷ t) (join_assoc a b c)

split_signed :
    (h p s : Text)
    → NoDot h
    → NoDot p
    → NoDot s
    → split_dots (join_dot (join_dot h p) s) ≡ h ∷ p ∷ s ∷ []
unfolding split_dots
split_signed h p s nh np ns =
    rw (join_assoc h p s, split_join h (join_dot p s) nh, split_join p s np, split_on-one b'.' s ns)
      refl

-- What the three parts of an accepted token are.
abbrev pub AcceptedParts : Codec → Bytes → ℕ → Text → Text → Text → Text → Claims → Type 0
AcceptedParts k secret now want h p s c =
    (k.decode s ≡ some (k.mac secret (join_dot h p)))
    × ((header : Bytes) × (k.decode h ≡ some header) × (k.parse_header header ≡ some alg_hs256))
    × ((raw : Bytes) × (k.decode p ≡ some raw) × (k.parse_claims raw ≡ some c))
    × (is_blank c.sub ≡ false)
    × (c.typ ≡ want)
    × (unix now < c.exp)

-- A token of three parts.
abbrev pub Accepted : Codec → Bytes → ℕ → Text → Text → Claims → Type 0
Accepted k secret now token want c =
    (h : Text) × (p : Text) × (s : Text) × (split_dots token ≡ h ∷ p ∷ s ∷ [])
    × AcceptedParts k secret now want h p s c

verify_parts_accepts :
    (k : Codec) (secret : Bytes) (now : ℕ) (want h p s : Text) (c : Claims)
    → AcceptedParts k secret now want h p s c
    → verify_parts k secret now want h p s ≡ valid c
unfolding verify_parts
verify_parts_accepts k secret now want h p s c
      (sig, (header, dh, ph), (raw, dp, pp), named, typed, early) =
    let wanted : text_eq c.typ want ≡ true = (text_eq_iff c.typ want).1 typed in
    let fresh : leb c.exp (unix now) ≡ false = ground (arith, early) in
    rw
      (
        sig,
        text_eq_refl (k.mac secret (join_dot h p)),
        dh,
        ph,
        text_eq_refl alg_hs256,
        dp,
        pp,
        named,
        wanted,
        fresh,
      )
      refl

>>=-valid :
    {A B : Type 0} (m : Verified A) (f : A → Verified B) {b : B}
    → (m >>= f) ≡ valid b
    → (a : A) × (m ≡ valid a) × (f a ≡ valid b)
>>=-valid (valid a) f h = (a, refl, h)
>>=-valid (refused e) f h = absurd (ground arith)

or_malformed-valid : {A : Type 0} (o : Option A) {a : A} → or_malformed o ≡ valid a → o ≡ some a
or_malformed-valid (some a) h = ground arith
or_malformed-valid none h = absurd (ground arith)

require-valid : (b : Bool) (e : TokenError) {t : Unit {0}} → require b e ≡ valid t → b ≡ true
require-valid true e h = refl
require-valid false e h = absurd (ground arith)

accepts_verify_parts :
    (k : Codec) (secret : Bytes) (now : ℕ) (want h p s : Text) (c : Claims)
    → verify_parts k secret now want h p s ≡ valid c
    → AcceptedParts k secret now want h p s c
unfolding verify_parts
accepts_verify_parts k secret now want h p s c v0 =
    let (sig, e1, v1) = >>=-valid (or_malformed (k.decode s)) _ v0 in
    let (t2, e2, v2) =
      >>=-valid (require (text_eq sig (k.mac secret (join_dot h p))) TokenError.bad_signature) _
        v1 in
    let (header, e3, v3) = >>=-valid (or_malformed (k.decode h)) _ v2 in
    let (alg, e4, v4) = >>=-valid (or_malformed (k.parse_header header)) _ v3 in
    let (t5, e5, v5) = >>=-valid (require (text_eq alg alg_hs256) TokenError.bad_signature) _ v4 in
    let (raw, e6, v6) = >>=-valid (or_malformed (k.decode p)) _ v5 in
    let (d, e7, v7) = >>=-valid (or_malformed (k.parse_claims raw)) _ v6 in
    let (t8, e8, v8) = >>=-valid (require (not (is_blank d.sub)) TokenError.malformed) _ v7 in
    let (t9, e9, v9) = >>=-valid (require (text_eq d.typ want) TokenError.wrong_type) _ v8 in
    let (t10, e10, v10) =
      >>=-valid (require (not (leb d.exp (unix now))) TokenError.expired) _ v9 in
    let same : d ≡ c = ground (arith, v10) in
    let signed_by = eq_of_text_eq sig (k.mac secret (join_dot h p)) (require-valid _ _ e2) in
    let hs256 = eq_of_text_eq alg alg_hs256 (require-valid _ _ e5) in
    let named : is_blank d.sub ≡ false = ground (arith, require-valid _ _ e8) in
    let early : unix now < d.exp = ground (arith, require-valid _ _ e10) in
    let parsed = or_malformed-valid (k.parse_claims raw) e7 in
    (
      or_malformed-valid (k.decode s) e1 ∙ ap some signed_by,
      (
        header,
        or_malformed-valid (k.decode h) e3,
        or_malformed-valid (k.parse_header header) e4 ∙ ap some hs256,
      ),
      (raw, or_malformed-valid (k.decode p) e6, parsed ∙ ap some same),
      ap (λ (x : Claims). is_blank x.sub) (sym same) ∙ named,
      ap typ (sym same) ∙ eq_of_text_eq d.typ want (require-valid _ _ e9),
      rw same at early,
    )

-- Verify accepts a token with some claims exactly when it has three parts, the third of which
-- decodes to the HMAC of the first two, the header names HS256, the payload decodes to the claims,
-- and these have a username, the wanted type and an expiry later than the current second.
pub verify_iff :
    (k : Codec) (secret : Bytes) (now : ℕ) (token want : Text) (c : Claims)
    → (verify k secret now token want ≡ valid c) ↔ Accepted k secret now token want c
unfolding verify verify_split
verify_iff k secret now token want c = (
  parts (split_dots token),
  λ (h, p, s, e, ok). rw (e, verify_split) (verify_parts_accepts k secret now want h p s c ok),
)
  where
    parts :
        (ps : List Text)
        → verify_split k secret now want ps ≡ valid c
        → (h : Text) × (p : Text) × (s : Text) × (ps ≡ h ∷ p ∷ s ∷ [])
          × AcceptedParts k secret now want h p s c
    parts [] v = absurd (ground arith)
    parts (a ∷ []) v = absurd (ground arith)
    parts (a ∷ b ∷ []) v = absurd (ground arith)
    parts (h ∷ p ∷ s ∷ []) v = (h, p, s, refl, accepts_verify_parts k secret now want h p s c v)
    parts (a ∷ b ∷ d ∷ e ∷ ps) v = absurd (ground arith)

-- A token that Issue has issued is valid for its type until the second in which its lifetime ends,
-- and Verify gives back the claims: the username, the version, the type and the two instants. The
-- username is not empty, and the codec reads back what it has encoded.
pub verify-issue :
    (k : Codec) (laws : CodecLaws k) (secret : Bytes) (now later : ℕ) (raw : Bytes)
    (name typ : Text) (ver ttl : ℕ) (token : Text)
    → is_blank name ≡ false
    → issue k secret now (some raw) name ver typ ttl ≡ some token
    → unix later < unix (now + ttl)
    → verify k secret later token typ ≡ valid (issued_claims now raw name ver typ ttl)
unfolding issue signed issued_claims
verify-issue k laws secret now later raw name typ ver ttl token named made early =
    let header = k.header_json alg_hs256 in
    let claims = issued_claims now raw name ver typ ttl in
    let payload = k.claims_json claims in
    let h = k.encode header in
    let p = k.encode payload in
    let sig = k.mac secret (join_dot h p) in
    (verify_iff k secret later token typ claims).1 (
      h,
      p,
      k.encode sig,
      ap split_dots (sym (some_inj made))
          ∙ split_signed h p (k.encode sig) (laws.encode_no_dot header) (laws.encode_no_dot payload)
              (laws.encode_no_dot sig),
      (
        laws.decode-encode sig,
        (header, laws.decode-encode header, laws.parse_header-json alg_hs256),
        (payload, laws.decode-encode payload, laws.parse_claims-json claims),
        named,
        refl,
        early,
      ),
    )
