-- ===== src/Tests/Console.antt =====
-- A console with two accounts, and the requests to it.
use jo_ei.Prelude.{ℕ, false, [], ◌∷◌, none, some}
use jo_ei.Prelude.Text.{Text, codes, text_eq}
use jo_ei.Users.{role_admin}
use jo_ei.Auth.Token.{Bytes, Claims, issue, type_access}
use jo_ei.Auth.Limiter.{new_limiter}
use jo_ei.Auth.Session.{Sessions, Request, Identity}
use jo_ei.Auth.Handlers.{Call, World, LoginRequest}
use jo_ei.Tests.Codec.{codec}
use jo_ei.Tests.Accounts.{alice, staff}

abbrev pub secret : Bytes
secret = 1 ∷ 2 ∷ 3 ∷ []

-- 15 minutes, and a day.
abbrev pub console : Sessions
console = record {
  codec = codec;
  secret = secret;
  access_ttl = 900000000000;
  refresh_ttl = 86400000000000;
  parse_url = λ t. none;
  check_password = text_eq;
  hash_password = λ p. some p;
}

abbrev pub plain_request : Request
plain_request = record {
  method = codes "POST";
  host = codes "localhost";
  tls = false;
  authorization = [];
  sec_fetch_site = [];
  origin = [];
  forwarded_proto = [];
  access_cookie = none;
  refresh_cookie = none;
}

abbrev pub now : ℕ
now = 5000000000

abbrev pub raw : Bytes
raw = 0 ∷ []

abbrev pub visit : Call
visit = record {
  now = now;
  client_ip = codes "::1";
  raws = (some raw, some raw);
  request = plain_request;
}

abbrev pub world : World
world = record { db = staff; limiter = new_limiter }

abbrev pub right_login : LoginRequest
right_login = record { username = codes "alice"; password = codes "hash" }

abbrev pub alice_token : Text
alice_token = elim (issue codec secret now (some raw) alice.username 100 type_access 900000000000) [
  | none ↦ []
  | some t ↦ t
]

abbrev pub alice_claims : Claims
alice_claims = record {
  sub = alice.username;
  ver = 100;
  typ = type_access;
  iat = 5;
  exp = 905;
  jti = codes "00";
}

abbrev pub alice_identity : Identity
alice_identity = record {
  username = alice.username;
  role = role_admin;
  must_change_password = false;
}

abbrev pub with_cookie : Request
with_cookie = record plain_request { access_cookie = some alice_token }
