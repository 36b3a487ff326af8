-- ===== src/StickyIp.antt =====
-- dialer/stickyip/stickyip.go: ProxyIpCache, and the cycle counter of StickyIpDialer. Time is a
-- number of nanoseconds, the map an association list, an entry that is written through its pointer
-- a new entry under its key. A method's two critical sections run one after the other, and the
-- debug log is left out.
pub mod Map
pub mod Laws
pub mod Invalidate
mod Tests
use outbound.Prelude.{ltb, ◌==◌, if◌then◌else◌, ℕ, ◌+◌, ◌-◌, ◌*◌, ◌%◌, ◌^◌, Bool, ◌&&◌, not}
use outbound.Prelude.{Option, none, some, List, [], ◌++◌}
use Prim.Native.String.{String, ◌++◌ as ◌+++◌}
use text.Mathlib.Text.{◌==◌ as str_eq}
use outbound.StickyIp.Map.{lookup, insert, erase, keep_if}

abbrev pub cache_ttl : ℕ
cache_ttl = 5 * 60 * 1_000_000_000

abbrev cache_cleanup_interval : ℕ
cache_cleanup_interval = 60 * 1_000_000_000

pub record ProxyIpEntry : Type 0 where
  pub tcp4_addr : String
  pub tcp6_addr : String
  pub udp4_addr : String
  pub udp6_addr : String
  pub expires_at : ℕ
  pub check_cycle : ℕ

-- `none` is the zero time.
pub record ProxyIpCache : Type 0 where
  pub cache : List (String × ProxyIpEntry)
  pub next_cleanup_at : Option ℕ

pub new_proxy_ip_cache : ProxyIpCache
new_proxy_ip_cache = record { cache = []; next_cleanup_at = none }

abbrev empty_entry : ProxyIpEntry
empty_entry = record {
  tcp4_addr = "";
  tcp6_addr = "";
  udp4_addr = "";
  udp6_addr = "";
  expires_at = 0;
  check_cycle = 0;
}

pub cache_key : String → String → String
cache_key network ip_version = network +++ ip_version

pub expired : ℕ → ProxyIpEntry → Bool
expired now e = ltb e.expires_at now

-- the `switch key` of the getters
pub read_slot : ProxyIpEntry → String → String
read_slot e key =
    if str_eq key "tcp4"
    then e.tcp4_addr
    else if str_eq key "tcp6"
    then e.tcp6_addr
    else if str_eq key "udp4"
    then e.udp4_addr
    else if str_eq key "udp6"
    then e.udp6_addr
    else ""

-- the `switch key` of the setters: an unknown key changes nothing
pub write_slot : ProxyIpEntry → String → String → ProxyIpEntry
write_slot e key v =
    if str_eq key "tcp4"
    then record e { tcp4_addr = v }
    else if str_eq key "tcp6"
    then record e { tcp6_addr = v }
    else if str_eq key "udp4"
    then record e { udp4_addr = v }
    else if str_eq key "udp6"
    then record e { udp6_addr = v }
    else e

pub cleanup_expired : ProxyIpCache → ℕ → ProxyIpCache
cleanup_expired c now = record c { cache = keep_if (λ e. not (expired now e)) c.cache }

pub maybe_cleanup_expired : ProxyIpCache → ℕ → ProxyIpCache
maybe_cleanup_expired c now = elim c.next_cleanup_at [
  | none ↦ record (cleanup_expired c now) { next_cleanup_at = some (now + cache_cleanup_interval) }
  | some due ↦
      if ltb now due
      then c
      else record (cleanup_expired c now) { next_cleanup_at = some (now + cache_cleanup_interval) }
]

pub delete_if_expired : ProxyIpCache → String → ℕ → ProxyIpCache
delete_if_expired c addr now = elim (lookup addr c.cache) [
  | none ↦ c
  | some e ↦ if expired now e then record c { cache = erase addr c.cache } else c
]

-- the entry that `Set` writes back
pub refreshed : Option ProxyIpEntry → ℕ → ℕ → String → String → ProxyIpEntry
refreshed found now cycle key actual =
    let e : ProxyIpEntry = elim found [ none ↦ empty_entry | some e ↦ e ] in
    write_slot (record e { expires_at = now + cache_ttl; check_cycle = cycle }) key actual

pub set_addr : ProxyIpCache → ℕ → String → String → String → String → ℕ → ProxyIpCache
set_addr c now original actual network ip_version cycle =
    let c' = maybe_cleanup_expired c now in
    record c' {
      cache =
          insert original
            (refreshed (lookup original c'.cache) now cycle (cache_key network ip_version) actual)
            c'.cache;
    }

-- what `GetWithCycleAndIpVersion` answers from an entry
pub answer : String → ProxyIpEntry → String → ℕ → String
answer proxy_addr e key current_cycle =
    if e.check_cycle == current_cycle
    then if str_eq (read_slot e key) "" then proxy_addr else read_slot e key
    else proxy_addr

pub get_with_cycle_and_ip_version :
    ProxyIpCache → ℕ → String → String → String → ℕ → String × ProxyIpCache
get_with_cycle_and_ip_version c now proxy_addr network ip_version current_cycle =
    elim (lookup proxy_addr c.cache) [
      | none ↦ (proxy_addr, c)
      | some e ↦
          if expired now e
          then (proxy_addr, delete_if_expired c proxy_addr now)
          else (answer proxy_addr e (cache_key network ip_version) current_cycle, c)
    ]

pub get_with_cycle : ProxyIpCache → ℕ → String → String → ℕ → String × ProxyIpCache
get_with_cycle c now proxy_addr network current_cycle =
    let (addr, c') = get_with_cycle_and_ip_version c now proxy_addr network "4" current_cycle in
    if str_eq addr proxy_addr
    then get_with_cycle_and_ip_version c' now proxy_addr network "6" current_cycle
    else (addr, c')

pub invalidate : ProxyIpCache → String → ProxyIpCache
invalidate c proxy_addr = record c { cache = erase proxy_addr c.cache }

pub all_empty : ProxyIpEntry → Bool
all_empty e =
    str_eq e.tcp4_addr "" && str_eq e.tcp6_addr "" && str_eq e.udp4_addr "" && str_eq e.udp6_addr ""

pub invalidate_protocol_and_ip_version : ProxyIpCache → String → String → String → ProxyIpCache
invalidate_protocol_and_ip_version c proxy_addr network ip_version =
    elim (lookup proxy_addr c.cache) [
      | none ↦ c
      | some e ↦
          let e' = write_slot e (cache_key network ip_version) "" in
          if all_empty e'
          then record c { cache = erase proxy_addr c.cache }
          else record c { cache = insert proxy_addr e' c.cache }
    ]

pub invalidate_protocol : ProxyIpCache → String → String → ProxyIpCache
invalidate_protocol c proxy_addr network =
    invalidate_protocol_and_ip_version (invalidate_protocol_and_ip_version c proxy_addr network "4")
      proxy_addr network "6"

pub invalidate_proxy_cycle : ProxyIpCache → String → ℕ → ProxyIpCache
invalidate_proxy_cycle c proxy_addr cycle = elim (lookup proxy_addr c.cache) [
  | none ↦ c
  | some e ↦ if e.check_cycle == cycle then record c { cache = erase proxy_addr c.cache } else c
]

pub record StickyIpDialer : Type 0 where
  pub proxy_cache : ProxyIpCache
  pub check_cycle : ℕ
  pub proxy_addr : String

pub increment_check_cycle : StickyIpDialer → StickyIpDialer
increment_check_cycle d =
    let new_cycle = (d.check_cycle + 1) % 2 ^ 64 in
    record d {
      proxy_cache =
          if ltb 0 new_cycle
          then invalidate_proxy_cycle d.proxy_cache d.proxy_addr (new_cycle - 1)
          else d.proxy_cache;
      check_cycle = new_cycle;
    }
