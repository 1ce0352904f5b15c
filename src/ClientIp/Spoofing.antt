-- ===== src/ClientIp/Spoofing.antt =====
-- What a client writes into the forwarding header does not change its address.
use mathlib.Core.List.{append-nil, append_assoc}
use jo_ei.Prelude.{
  ◌≡◌, refl, sym, ◌∙◌, ap, true, false, List, [], ◌∷◌, ◌++◌, Option, none, some, any, ◌==◌,
}
use jo_ei.Prelude.Text.{Text, trim_space, split_on, split_on-one, split_on-append}
use jo_ei.ClientIp.{
  Netip, x_forwarded_for, trusted_addr, peer_addr, parse_hop, part_hops, line_hops, hops, walk, rev,
  client_ip,
}

-- A line to which proxies have appended their peers.
abbrev pub appended : Text → List Text → Text
appended line [] = line
appended line (t ∷ ts) = appended (line ++ b',' ∷ t) ts

abbrev pub NoCommas : List Text → Type 0
NoCommas [] = Unit {0}
NoCommas (t ∷ ts) = (any (λ c. c == b',') t ≡ false) × NoCommas ts

append_assoc_one :
    {A : Type 0} (xs : List A) (y : A) (ys : List A) → (xs ++ y ∷ []) ++ ys ≡ xs ++ y ∷ ys
append_assoc_one [] y ys = refl
append_assoc_one (x ∷ xs) y ys = ap (λ zs. x ∷ zs) (append_assoc_one xs y ys)

split_on-appended :
    (line : Text) (ts : List Text)
    → NoCommas ts
    → split_on b',' (appended line ts) ≡ split_on b',' line ++ ts
split_on-appended line [] h = sym (append-nil (split_on b',' line))
split_on-appended line (t ∷ ts) h =
    split_on-appended (line ++ b',' ∷ t) ts h.1
    ∙ ap (λ ps. ps ++ ts)
        (split_on-append b',' line t
          ∙ ap (λ ps. split_on b',' line ++ ps) (split_on-one b',' t h.0))
    ∙ append_assoc_one (split_on b',' line) t ts

rev-append : {A : Type 0} (xs ys acc : List A) → rev (xs ++ ys) acc ≡ rev ys (rev xs acc)
unfolding rev
rev-append [] ys acc = refl
rev-append (x ∷ xs) ys acc = rev-append xs ys (x ∷ acc)

module _ {Addr Prefix : Type 0} (net : Netip Addr Prefix) where
  part_hops-append :
      (ps qs : List Text)
      → part_hops net x_forwarded_for (ps ++ qs)
        ≡ part_hops net x_forwarded_for ps ++ part_hops net x_forwarded_for qs
  unfolding part_hops
  part_hops-append [] qs = refl
  part_hops-append (p ∷ ps) qs =
      ap (λ hs. parse_hop net (trim_space p) ∷ hs) (part_hops-append ps qs)

  line_hops-append :
      (before : List Text) (line : Text)
      → line_hops net x_forwarded_for (before ++ line ∷ [])
        ≡ line_hops net x_forwarded_for before ++ part_hops net x_forwarded_for (split_on b',' line)
  unfolding line_hops
  line_hops-append [] line = append-nil (part_hops net x_forwarded_for (split_on b',' line))
  line_hops-append (l ∷ before) line =
      let first = part_hops net x_forwarded_for (split_on b',' l) in
      ap (λ hs. first ++ hs) (line_hops-append before line)
      ∙ sym (
          append_assoc first (line_hops net x_forwarded_for before)
            (part_hops net x_forwarded_for (split_on b',' line)))

  -- Every hop is the address of a trusted proxy.
  abbrev pub AllTrusted : List Prefix → List (Option Addr) → Type 0
  AllTrusted peers [] = Unit {0}
  AllTrusted peers (none ∷ hs) = ⊥
  AllTrusted peers (some a ∷ hs) = (trusted_addr net peers a ≡ true) × AllTrusted peers hs

  walk-rev :
      (peers : List Prefix) (peer a : Addr) (right acc : List (Option Addr))
      → AllTrusted peers right
      → ((seen : Addr) → walk net peers peer seen acc ≡ a)
      → (seen : Addr) → walk net peers peer seen (rev right acc) ≡ a
  unfolding walk rev
  walk-rev peers peer a [] acc trust ends seen = ends seen
  walk-rev peers peer a (none ∷ right) acc trust ends seen = absurd trust
  walk-rev peers peer a (some b ∷ right) acc trust ends seen =
      walk-rev peers peer a right (some b ∷ acc) trust.1 (λ s. rw trust.0 (ends b)) seen

  hops_of :
      (before : List Text) (junk t : Text) (ts : List Text) (a : Addr)
      → NoCommas (t ∷ ts)
      → parse_hop net (trim_space t) ≡ some a
      → line_hops net x_forwarded_for (before ++ appended junk (t ∷ ts) ∷ [])
        ≡ (line_hops net x_forwarded_for before
            ++ part_hops net x_forwarded_for (split_on b',' junk))
          ++ some a ∷ part_hops net x_forwarded_for ts
  unfolding part_hops
  hops_of before junk t ts a plain client =
      let start = line_hops net x_forwarded_for before in
      let own = part_hops net x_forwarded_for (split_on b',' junk) in
      line_hops-append before (appended junk (t ∷ ts))
      ∙ ap (λ ps. start ++ part_hops net x_forwarded_for ps) (split_on-appended junk (t ∷ ts) plain)
      ∙ ap (λ hs. start ++ hs) (part_hops-append (split_on b',' junk) (t ∷ ts))
      ∙ ap (λ o. start ++ (own ++ o ∷ part_hops net x_forwarded_for ts)) client
      ∙ sym (append_assoc start own (some a ∷ part_hops net x_forwarded_for ts))

  -- Behind trusted proxies that append to X-Forwarded-For, the client is the first address from the
  -- right that is no trusted proxy's: whatever header lines come before, and whatever the client has
  -- written into the line itself. The peer is trusted, what the proxies append has no comma, and to
  -- the right of the client all of it is addresses of trusted proxies.
  pub client_ip-appended :
      (peers : List Prefix) (peer a : Addr) (remote : Text) (before : List Text) (junk t : Text)
      (ts : List Text)
      → peer_addr net remote ≡ some peer
      → trusted_addr net peers peer ≡ true
      → NoCommas (t ∷ ts)
      → parse_hop net (trim_space t) ≡ some a
      → trusted_addr net peers a ≡ false
      → AllTrusted peers (part_hops net x_forwarded_for ts)
      → client_ip net peers x_forwarded_for
          (record { remote_addr = remote; lines = before ++ appended junk (t ∷ ts) ∷ [] })
        ≡ net.show a
  unfolding client_ip hops walk rev
  client_ip-appended peers peer a remote before junk t ts is near plain client untrusted trust =
      let left =
        line_hops net x_forwarded_for before
        ++ part_hops net x_forwarded_for (split_on b',' junk) in
      let right = part_hops net x_forwarded_for ts in
      let chain = hops_of before junk t ts a plain client in
      let walked =
        walk-rev peers peer a right (some a ∷ rev left []) trust (λ seen. rw untrusted refl) peer in
      let back =
        ap (λ hs. walk net peers peer peer (rev hs [])) chain
        ∙ ap (walk net peers peer peer) (rev-append left (some a ∷ right) [])
        ∙ walked in
      rw (is, near, client_ip) (ap net.show back)
