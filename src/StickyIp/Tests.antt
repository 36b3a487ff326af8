-- ===== src/StickyIp/Tests.antt =====
-- A cache with one proxy address.
use outbound.Prelude.{◌≡◌, refl, ◌≢◌, true, none, [], ◌∷◌, arith}
use outbound.StickyIp.Map.{lookup}
use outbound.StickyIp.{ProxyIpEntry, ProxyIpCache, new_proxy_ip_cache, cache_key, expired}
use outbound.StickyIp.{read_slot, set_addr, answer, get_with_cycle_and_ip_version, StickyIpDialer}
use outbound.StickyIp.Laws.{is_key, get-set_addr, get-set_addr_ne}
use Prim.Native.String.{String}
use text.Mathlib.TextEquality.{eq_iff}

abbrev proxy : String
proxy = "proxy.example:443"

abbrev stored : ProxyIpEntry
stored = record {
  tcp4_addr = "192.0.2.7:443";
  tcp6_addr = "";
  udp4_addr = "";
  udp6_addr = "";
  expires_at = 300;
  check_cycle = 3;
}

abbrev one_entry : ProxyIpCache
one_entry = record { cache = (proxy, stored) ∷ []; next_cleanup_at = none }

key_tcp4 : is_key (cache_key "tcp" "4") ≡ true
unfolding cache_key
key_tcp4 = refl

stored_answer : (get_with_cycle_and_ip_version one_entry 10 proxy "tcp" "4" 3).0 ≡ "192.0.2.7:443"
unfolding get_with_cycle_and_ip_version answer read_slot cache_key expired lookup
stored_answer = refl

not_proxy : "192.0.2.7:443" ≢ proxy
not_proxy e = ground (arith, eq_iff "192.0.2.7:443" proxy, e)

get-set_addr_example :
    (get_with_cycle_and_ip_version
      (set_addr new_proxy_ip_cache 5 proxy "192.0.2.9:443" "tcp" "4" 3)
      6
      proxy
      "tcp"
      "4"
      3).0
    ≡ "192.0.2.9:443"
get-set_addr_example =
    get-set_addr new_proxy_ip_cache 5 6 proxy "192.0.2.9:443" "tcp" "4" 3 key_tcp4
      (λ e. ground (arith, eq_iff "192.0.2.9:443" "", e)) (omega arith)

get-set_addr_ne_example :
    (get_with_cycle_and_ip_version
      (set_addr one_entry 5 "other:1" "192.0.2.9:443" "tcp" "4" 3)
      6
      proxy
      "tcp"
      "4"
      3).0
    ≡ (get_with_cycle_and_ip_version one_entry 6 proxy "tcp" "4" 3).0
unfolding lookup
get-set_addr_ne_example =
    get-set_addr_ne one_entry 5 6 "other:1" "192.0.2.9:443" "tcp" "4" 3 proxy "tcp" "4" 3 (refl, tt)
      (λ e. ground (arith, eq_iff "other:1" proxy, e)) (omega arith)

abbrev dialer : StickyIpDialer
dialer = record { proxy_cache = one_entry; check_cycle = 3; proxy_addr = proxy }
