-- ===== src/Tests/Addresses.antt =====
-- The theorem on the client address, with texts for addresses.
use jo_ei.Prelude.{◌≡◌, refl, List, [], ◌∷◌, none, some, any, if◌then◌else◌}
use jo_ei.Prelude.Text.{Text, codes, text_eq, trim_space, trim_left, trim_right, is_space}
use jo_ei.ClientIp.{
  Netip, x_forwarded_for, client_ip, peer_addr, parse_hop, trusted_addr, part_hops,
}
use jo_ei.ClientIp.Spoofing.{appended, client_ip-appended}

-- Every text but the empty one is an address, and a prefix covers itself.
abbrev texts : Netip Text Text
texts = record {
  parse_addr = λ t. if text_eq t [] then none else some t;
  parse_addr_port = λ t. none;
  parse_prefix = λ t. some t;
  unmap = λ a. a;
  masked = λ p. p;
  single = λ a. a;
  covers = text_eq;
  show = λ a. a;
  split_host_port = λ t. none;
}

abbrev proxies : List Text
proxies = codes "10.0.0.1" ∷ codes "10.0.0.2" ∷ []

client_ip-appended_example :
    client_ip texts proxies x_forwarded_for (record {
      remote_addr = codes "10.0.0.1";
      lines =
          codes "127.0.0.1"
          ∷ appended (codes "127.0.0.1, junk") (codes " 203.0.113.7" ∷ codes " 10.0.0.2" ∷ [])
          ∷ [];
    })
    ≡ codes "203.0.113.7"
unfolding part_hops peer_addr parse_hop trusted_addr any text_eq trim_space trim_left trim_right
    is_space
client_ip-appended_example =
    client_ip-appended texts proxies (codes "10.0.0.1") (codes "203.0.113.7") (codes "10.0.0.1")
      (codes "127.0.0.1" ∷ []) (codes "127.0.0.1, junk") (codes " 203.0.113.7")
      (codes " 10.0.0.2" ∷ []) refl refl (refl, (refl, tt)) refl refl (refl, tt)
