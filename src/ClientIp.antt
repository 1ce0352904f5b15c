-- ===== src/ClientIp.antt =====
-- internal/httpx/clientip.go and trusted.go: the address of the client behind trusted reverse
-- proxies. The package net/netip is a parameter: addresses, prefixes, and how they are read.
pub mod Spoofing
use jo_ei.Prelude.{
  ℕ, Bool, true, false, not, ◌&&◌, ◌||◌, List, [], ◌∷◌, ◌++◌, Option, none, some, any, ◌==◌,
  if◌then◌else◌,
}
use jo_ei.Prelude.Text.{Text, codes, text_eq, contains_any, cut, trim_space, split_on}
use jo_ei.Users.Validation.{equal_fold}

pub record Netip (Addr Prefix : Type 0) : Type 0 where
  pub parse_addr : Text → Option Addr
  pub parse_addr_port : Text → Option Addr
  pub parse_prefix : Text → Option Prefix
  pub unmap : Addr → Addr
  pub masked : Prefix → Prefix
  pub single : Addr → Prefix
  pub covers : Prefix → Addr → Bool
  pub show : Addr → Text
  pub split_host_port : Text → Option Text

pub data Header : Type 0 where
  x_forwarded_for x_real_ip forwarded : Header

-- The header of NewClientIPResolver.
unfoldable pub header_of : Text → Option Header
header_of [] = some x_forwarded_for
header_of (c ∷ h) =
    if equal_fold (c ∷ h) (codes "X-Forwarded-For")
    then some x_forwarded_for
    else if equal_fold (c ∷ h) (codes "X-Real-IP")
    then some x_real_ip
    else if equal_fold (c ∷ h) (codes "Forwarded")
    then some forwarded
    else none

-- Without the quotes at its ends.
abbrev drop_quotes : Text → Text
drop_quotes [] = []
drop_quotes (c ∷ s) = let rest = drop_quotes s in if c == b'"' then rest else c ∷ s

abbrev drop_last_quotes : Text → Text
drop_last_quotes [] = []
drop_last_quotes (c ∷ s) = elim (drop_last_quotes s) [
  | [] ↦ if c == b'"' then [] else c ∷ []
  | d ∷ t ↦ c ∷ d ∷ t
]

abbrev trim_quotes : Text → Text
trim_quotes s = drop_last_quotes (drop_quotes s)

-- The value of a parameter, where its key is for.
unfoldable pub for_value : Text → Option Text
for_value param = elim (cut b'=' (trim_space param)) [
  | none ↦ none
  | some (k, v) ↦
      if equal_fold (trim_space k) (codes "for") then some (trim_quotes (trim_space v)) else none
]

pub has_for : List Text → Bool
has_for [] = false
has_for (param ∷ params) = elim (for_value param) [ some v ↦ true | none ↦ has_for params ]

pub first_for : List Text → Text
first_for [] = []
first_for (param ∷ params) = elim (for_value param) [ some v ↦ v | none ↦ first_for params ]

unfoldable pub has_for_param : Text → Bool
unfolding has_for
has_for_param element = has_for (split_on b';' element)

unfoldable pub forwarded_for : Text → Text
unfolding first_for
forwarded_for element = first_for (split_on b';' element)

-- What stands between brackets.
inner_of : Text → Option Text
inner_of [] = none
inner_of (c ∷ s) =
    if c == b']' && text_eq s []
    then some []
    else elim (inner_of s) [ none ↦ none | some t ↦ some (c ∷ t) ]

unfoldable pub bracketed : Text → Option Text
unfolding inner_of
bracketed [] = none
bracketed (c ∷ s) = if c == b'[' then inner_of s else none

-- The peer's address, and the lines of the configured header.
pub record Incoming : Type 0 where
  pub remote_addr : Text
  pub lines : List Text

-- The first list turned round, before the second.
unfoldable pub rev : {A : Type 0} → List A → List A → List A
rev [] acc = acc
rev (x ∷ xs) acc = rev xs (x ∷ acc)

module _ {Addr Prefix : Type 0} (net : Netip Addr Prefix) where
  unfoldable pub parse_trusted : Text → Option Prefix
  parse_trusted entry =
      let e = trim_space entry in
      if contains_any e (b'/' ∷ [])
      then elim (net.parse_prefix e) [ none ↦ none | some p ↦ some (net.masked p) ]
      else elim (net.parse_addr e) [ none ↦ none | some a ↦ some (net.single (net.unmap a)) ]

  unfoldable pub parse_trusted_peers : List Text → Option (List Prefix)
  parse_trusted_peers [] = some []
  parse_trusted_peers (entry ∷ entries) = elim (parse_trusted entry) [
    | none ↦ none
    | some p ↦ elim (parse_trusted_peers entries) [ none ↦ none | some ps ↦ some (p ∷ ps) ]
  ]

  -- TrustedPeers.Contains
  unfoldable pub trusted_addr : List Prefix → Addr → Bool
  trusted_addr peers a = any (λ p. net.covers p a) peers

  -- peerAddr: the address, or what stands in its place.
  abbrev pub host_of : Text → Text
  host_of remote = elim (net.split_host_port remote) [ none ↦ remote | some host ↦ host ]

  unfoldable pub peer_addr : Text → Option Addr
  peer_addr remote = elim (net.parse_addr (host_of remote)) [
    | none ↦ none
    | some a ↦ some (net.unmap a)
  ]

  -- parseHop: none where it is not valid.
  unfoldable pub parse_hop : Text → Option Addr
  parse_hop s = elim (net.parse_addr s) [
    | some a ↦ some (net.unmap a)
    | none ↦ elim (net.parse_addr_port s) [
      | some a ↦ some (net.unmap a)
      | none ↦ elim (bracketed s) [
        | none ↦ none
        | some t ↦ elim (net.parse_addr t) [ none ↦ none | some a ↦ some (net.unmap a) ]
      ]
    ]
  ]

  -- The hops of the parts of one line.
  unfoldable pub part_hops : Header → List Text → List (Option Addr)
  part_hops h [] = []
  part_hops x_forwarded_for (part ∷ parts) =
      parse_hop (trim_space part) ∷ part_hops x_forwarded_for parts
  part_hops x_real_ip (part ∷ parts) = parse_hop (trim_space part) ∷ part_hops x_real_ip parts
  part_hops forwarded (part ∷ parts) =
      let rest = part_hops forwarded parts in
      let element = trim_space part in
      if text_eq element [] || not (has_for_param element)
      then rest
      else parse_hop (forwarded_for element) ∷ rest

  unfoldable pub line_hops : Header → List Text → List (Option Addr)
  unfolding part_hops
  line_hops h [] = []
  line_hops h (line ∷ lines) = part_hops h (split_on b',' line) ++ line_hops h lines

  -- hops: empty where the header is absent or does not count.
  unfoldable pub hops : Header → List Text → List (Option Addr)
  hops x_forwarded_for lines = line_hops x_forwarded_for lines
  hops forwarded lines = line_hops forwarded lines
  hops x_real_ip lines = elim (line_hops x_real_ip lines) [
    | [] ↦ []
    | a ∷ rest ↦ elim rest [ [] ↦ a ∷ [] | b ∷ more ↦ [] ]
  ]

  -- The walk of ClientIP, from the hop nearest to the peer on; seen is the last address it passed.
  unfoldable pub walk : List Prefix → Addr → Addr → List (Option Addr) → Addr
  walk peers peer seen [] = seen
  walk peers peer seen (none ∷ rest) = peer
  walk peers peer seen (some a ∷ rest) =
      let further = walk peers peer a rest in if trusted_addr peers a then further else a

  abbrev pub client_of : List Prefix → Header → Addr → List Text → Addr
  client_of peers h peer lines =
      if trusted_addr peers peer then walk peers peer peer (rev (hops h lines) []) else peer

  -- ClientIP
  unfoldable pub client_ip : List Prefix → Header → Incoming → Text
  client_ip peers h r = elim (peer_addr r.remote_addr) [
    | none ↦ host_of r.remote_addr
    | some peer ↦ net.show (client_of peers h peer r.lines)
  ]
