-- ===== src/StickyIp/Laws.antt =====
-- What the cache of dialer/stickyip/stickyip.go answers after each operation.
use outbound.Prelude.{if◌then◌else◌, ℕ, ◌+◌, ◌≤◌, ◌≡◌, refl, sym, ◌∙◌, ◌≢◌, ◌⊎◌, inl, inr}
use outbound.Prelude.{Bool, true, false, ◌||◌, not, Option, none, some, arith}
use outbound.StickyIp.Map.{lookup, IsMap, lookup-insert, filtered, lookup-keep_if, insert-IsMap}
use outbound.StickyIp.Map.{keep_if-IsMap}
use outbound.StickyIp.{cache_ttl, ProxyIpEntry, ProxyIpCache, cache_key, expired, read_slot}
use outbound.StickyIp.{write_slot, cleanup_expired, maybe_cleanup_expired, refreshed, set_addr}
use outbound.StickyIp.{answer, get_with_cycle_and_ip_version, all_empty}
use Prim.Native.String.{String}
use text.Mathlib.Text.{◌==◌ as str_eq}
use text.Mathlib.TextEquality.{eq_iff}
use text.Mathlib.TextPositions.{eq_refl}

abbrev pub is_key : String → Bool
is_key k = str_eq k "tcp4" || str_eq k "tcp6" || str_eq k "udp4" || str_eq k "udp6"

pub read-write_same :
    (e : ProxyIpEntry) (k v : String) → is_key k ≡ true → read_slot (write_slot e k v) k ≡ v
unfolding read_slot write_slot
read-write_same e k v h = ground arith

pub read-write_clear : (e : ProxyIpEntry) (k : String) → read_slot (write_slot e k "") k ≡ ""
unfolding read_slot write_slot
read-write_clear e k = ground arith

pub read-write_ne :
    (e : ProxyIpEntry) (k j v : String) → k ≢ j → read_slot (write_slot e k v) j ≡ read_slot e j
unfolding read_slot write_slot
read-write_ne e k j v h = ground (
  arith,
  eq_iff k "tcp4",
  eq_iff k "tcp6",
  eq_iff k "udp4",
  eq_iff k "udp6",
  eq_iff j "tcp4",
  eq_iff j "tcp6",
  eq_iff j "udp4",
  eq_iff j "udp6",
)

pub write_slot_meta :
    (e : ProxyIpEntry) (k v : String)
    → ((write_slot e k v).expires_at ≡ e.expires_at)
      × ((write_slot e k v).check_cycle ≡ e.check_cycle)
unfolding write_slot
write_slot_meta e k v = ground arith

pub read_slot-empty : (e : ProxyIpEntry) (k : String) → all_empty e ≡ true → read_slot e k ≡ ""
unfolding read_slot all_empty
read_slot-empty e k h = ground (
  arith,
  eq_iff e.tcp4_addr "",
  eq_iff e.tcp6_addr "",
  eq_iff e.udp4_addr "",
  eq_iff e.udp6_addr "",
)

-- The answer of a getter, from what the map holds for the address.
abbrev pub reply : Option ProxyIpEntry → ℕ → String → String → ℕ → String
reply none t addr key cycle = addr
reply (some e) t addr key cycle = if expired t e then addr else answer addr e key cycle

pub get-reply :
    (c : ProxyIpCache) (t : ℕ) (addr network ip : String) (cycle : ℕ)
    → (get_with_cycle_and_ip_version c t addr network ip cycle).0
      ≡ reply (lookup addr c.cache) t addr (cache_key network ip) cycle
unfolding get_with_cycle_and_ip_version
get-reply c t addr network ip cycle = ground arith

-- An entry that a cleanup at `now` drops answers like none from `now` on.
reply-filtered :
    (o : Option ProxyIpEntry) (now t : ℕ) (addr key : String) (cycle : ℕ)
    → now ≤ t
    → reply (filtered (λ e. not (expired now e)) o) t addr key cycle ≡ reply o t addr key cycle
unfolding expired
reply-filtered none now t addr key cycle h = refl
reply-filtered (some e) now t addr key cycle h = ground arith

lookup-cleanup :
    (c : ProxyIpCache) (now : ℕ) (addr : String)
    → IsMap c.cache
    → lookup addr (cleanup_expired c now).cache
      ≡ filtered (λ e. not (expired now e)) (lookup addr c.cache)
unfolding cleanup_expired
lookup-cleanup c now addr h = lookup-keep_if (λ e. not (expired now e)) addr c.cache h

reply-cleanup :
    (c : ProxyIpCache) (now t : ℕ) (addr key : String) (cycle : ℕ)
    → IsMap c.cache
    → now ≤ t
    → reply (lookup addr (cleanup_expired c now).cache) t addr key cycle
      ≡ reply (lookup addr c.cache) t addr key cycle
reply-cleanup c now t addr key cycle h k =
    rw (lookup-cleanup c now addr h) (reply-filtered (lookup addr c.cache) now t addr key cycle k)

maybe_cleanup_cases :
    (c : ProxyIpCache) (now : ℕ)
    → ((maybe_cleanup_expired c now).cache ≡ c.cache)
      ⊎ ((maybe_cleanup_expired c now).cache ≡ (cleanup_expired c now).cache)
unfolding maybe_cleanup_expired
maybe_cleanup_cases c now = ground arith

reply-maybe_cleanup :
    (c : ProxyIpCache) (now t : ℕ) (addr key : String) (cycle : ℕ)
    → IsMap c.cache
    → now ≤ t
    → reply (lookup addr (maybe_cleanup_expired c now).cache) t addr key cycle
      ≡ reply (lookup addr c.cache) t addr key cycle
reply-maybe_cleanup c now t addr key cycle h k = elim (maybe_cleanup_cases c now) [
  | inl e ↦ rw e
  | inr e ↦ rw e (reply-cleanup c now t addr key cycle h k)
]

cleanup-IsMap : (c : ProxyIpCache) (now : ℕ) → IsMap c.cache → IsMap (cleanup_expired c now).cache
unfolding cleanup_expired
cleanup-IsMap c now h = keep_if-IsMap (λ e. not (expired now e)) c.cache h

maybe_cleanup-IsMap :
    (c : ProxyIpCache) (now : ℕ) → IsMap c.cache → IsMap (maybe_cleanup_expired c now).cache
maybe_cleanup-IsMap c now h = elim (maybe_cleanup_cases c now) [
  | inl e ↦ rw e h
  | inr e ↦ rw e (cleanup-IsMap c now h)
]

-- What `Set` leaves in the map.
lookup-set_addr :
    (c : ProxyIpCache) (now : ℕ) (original actual network ip : String) (cycle : ℕ) (addr : String)
    → lookup addr (set_addr c now original actual network ip cycle).cache ≡ (
        if str_eq original addr
        then some (
            refreshed
              (lookup original (maybe_cleanup_expired c now).cache)
              now
              cycle
              (cache_key network ip)
              actual)
        else lookup addr (maybe_cleanup_expired c now).cache)
unfolding set_addr
lookup-set_addr c now original actual network ip cycle addr =
    lookup-insert original addr _ (maybe_cleanup_expired c now).cache

refreshed_lem :
    (o : Option ProxyIpEntry) (now cycle : ℕ) (key actual : String)
    → is_key key ≡ true
    → (read_slot (refreshed o now cycle key actual) key ≡ actual)
      × ((refreshed o now cycle key actual).expires_at ≡ now + cache_ttl)
      × ((refreshed o now cycle key actual).check_cycle ≡ cycle)
unfolding refreshed
refreshed_lem none now cycle key actual h = (
  read-write_same _ key actual h,
  (write_slot_meta _ key actual).0,
  (write_slot_meta _ key actual).1,
)
refreshed_lem (some e) now cycle key actual h = (
  read-write_same _ key actual h,
  (write_slot_meta _ key actual).0,
  (write_slot_meta _ key actual).1,
)

-- After `Set` the getter answers the address that was set, for the same network, IP version and
-- cycle, until the TTL has passed; the network and version name one of the four slots and the
-- address is not empty.
pub get-set_addr :
    (c : ProxyIpCache) (now t : ℕ) (original actual network ip : String) (cycle : ℕ)
    → is_key (cache_key network ip) ≡ true
    → actual ≢ ""
    → t ≤ now + cache_ttl
    → (get_with_cycle_and_ip_version
        (set_addr c now original actual network ip cycle)
        t
        original
        network
        ip
        cycle).0
      ≡ actual
get-set_addr c now t original actual network ip cycle h ne k =
    get-reply (set_addr c now original actual network ip cycle) t original network ip cycle
    ∙ rw (lookup-set_addr c now original actual network ip cycle original, eq_refl original)
        (unfold expired answer in
          ground (
            arith,
            eq_iff actual "",
            refreshed_lem (lookup original (maybe_cleanup_expired c now).cache) now cycle
                (cache_key network ip) actual h,
          ))

-- `Set` for one address, its cleanup of expired entries included, changes no answer for another
-- address from that time on.
pub get-set_addr_ne :
    (c : ProxyIpCache) (now t : ℕ) (original actual network ip : String) (cycle : ℕ)
    (addr network' ip' : String) (cycle' : ℕ)
    → IsMap c.cache
    → original ≢ addr
    → now ≤ t
    → (get_with_cycle_and_ip_version
        (set_addr c now original actual network ip cycle)
        t
        addr
        network'
        ip'
        cycle').0
      ≡ (get_with_cycle_and_ip_version c t addr network' ip' cycle').0
get-set_addr_ne c now t original actual network ip cycle addr network' ip' cycle' h ne k =
    let off : str_eq original addr ≡ false = ground (arith, eq_iff original addr) in
    get-reply (set_addr c now original actual network ip cycle) t addr network' ip' cycle'
    ∙ rw (lookup-set_addr c now original actual network ip cycle addr, off)
        (reply-maybe_cleanup c now t addr (cache_key network' ip') cycle' h k)
    ∙ sym (get-reply c t addr network' ip' cycle')

-- Two stored addresses never share a key after `Set`.
pub set_addr-IsMap :
    (c : ProxyIpCache) (now : ℕ) (original actual network ip : String) (cycle : ℕ)
    → IsMap c.cache
    → IsMap (set_addr c now original actual network ip cycle).cache
unfolding set_addr
set_addr-IsMap c now original actual network ip cycle h =
    insert-IsMap original _ (maybe_cleanup_expired c now).cache (maybe_cleanup-IsMap c now h)

reply_sound :
    (o : Option ProxyIpEntry) (t : ℕ) (addr key : String) (cycle : ℕ)
    → reply o t addr key cycle ≢ addr
    → (e : ProxyIpEntry) × (o ≡ some e)
      × (t ≤ e.expires_at)
      × (e.check_cycle ≡ cycle)
      × (reply o t addr key cycle ≡ read_slot e key)
      × (read_slot e key ≢ "")
unfolding expired answer
reply_sound none t addr key cycle ne = absurd (ne refl)
reply_sound (some e) t addr key cycle ne =
    (e, refl, ground arith, ground arith, ground arith, ground (arith, eq_iff (read_slot e key) ""))

-- A getter that answers anything but the address itself answers a stored, not empty address of an
-- entry of the cycle asked for, which has not expired.
pub get_sound :
    (c : ProxyIpCache) (t : ℕ) (addr network ip : String) (cycle : ℕ)
    → (get_with_cycle_and_ip_version c t addr network ip cycle).0 ≢ addr
    → (e : ProxyIpEntry) × (lookup addr c.cache ≡ some e)
      × (t ≤ e.expires_at)
      × (e.check_cycle ≡ cycle)
      × ((get_with_cycle_and_ip_version c t addr network ip cycle).0
          ≡ read_slot e (cache_key network ip))
      × (read_slot e (cache_key network ip) ≢ "")
get_sound c t addr network ip cycle ne =
    let r = get-reply c t addr network ip cycle in
    rw r (reply_sound (lookup addr c.cache) t addr (cache_key network ip) cycle (λ e. ne (r ∙ e)))
