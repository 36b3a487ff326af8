-- ===== src/StickyIp/Invalidate.antt =====
-- Invalidation in dialer/stickyip/stickyip.go: after a failed connection, and when a health check
-- cycle starts.
use outbound.Prelude.{ltb, ◌==◌, if◌then◌else◌, Option-cases, ℕ, ◌+◌, ◌-◌, ◌%◌, ◌^◌, ◌<◌, ◌≡◌}
use outbound.Prelude.{refl, sym, ◌∙◌, ◌≢◌, ◌⊎◌, inl, inr, Bool, true, false, not, Option, none}
use outbound.Prelude.{some, arith}
use outbound.StickyIp.Map.{lookup, lookup-insert, lookup-erase, filtered}
use outbound.StickyIp.{ProxyIpEntry, ProxyIpCache, cache_key, expired, read_slot, write_slot}
use outbound.StickyIp.{answer, get_with_cycle_and_ip_version, all_empty}
use outbound.StickyIp.{invalidate_protocol_and_ip_version, invalidate_proxy_cycle, StickyIpDialer}
use outbound.StickyIp.{increment_check_cycle}
use outbound.StickyIp.Laws.{read-write_clear, read-write_ne, write_slot_meta, read_slot-empty}
use outbound.StickyIp.Laws.{reply, get-reply}
use Prim.Native.String.{String}
use text.Mathlib.Text.{◌==◌ as str_eq}
use text.Mathlib.TextEquality.{eq_iff}
use text.Mathlib.TextPositions.{eq_refl}

-- Clearing the slot of a key answers the address for that key, and as before for another.
abbrev cleared : Option ProxyIpEntry → String → Option ProxyIpEntry
cleared none key = none
cleared (some e) key = if all_empty (write_slot e key "") then none else some (write_slot e key "")

lookup-invalidate_protocol_and_ip_version :
    (c : ProxyIpCache) (addr network ip other : String)
    → lookup other (invalidate_protocol_and_ip_version c addr network ip).cache ≡ (
        if str_eq addr other
        then cleared (lookup addr c.cache) (cache_key network ip)
        else lookup other c.cache)
unfolding invalidate_protocol_and_ip_version
lookup-invalidate_protocol_and_ip_version c addr network ip other =
    elim (Option-cases (lookup addr c.cache)) [
      | inl e ↦ rw (e, invalidate_protocol_and_ip_version) (ground (arith, eq_iff addr other, e))
      | inr (v, e) ↦ ground (
        arith,
        eq_iff addr other,
        e,
        lookup-insert addr other (write_slot v (cache_key network ip) "") c.cache,
        lookup-erase addr other c.cache,
      )
    ]

reply-cleared_same :
    (o : Option ProxyIpEntry) (t : ℕ) (addr key : String) (cycle : ℕ)
    → reply (cleared o key) t addr key cycle ≡ addr
unfolding expired answer
reply-cleared_same none t addr key cycle = refl
reply-cleared_same (some e) t addr key cycle =
    ground (arith, read-write_clear e key, eq_iff (read_slot (write_slot e key "") key) "")

reply-cleared_ne :
    (o : Option ProxyIpEntry) (t : ℕ) (addr key other : String) (cycle : ℕ)
    → key ≢ other
    → reply (cleared o key) t addr other cycle ≡ reply o t addr other cycle
unfolding expired answer
reply-cleared_ne none t addr key other cycle ne = refl
reply-cleared_ne (some e) t addr key other cycle ne = ground (
  arith,
  read-write_ne e key other "" ne,
  write_slot_meta e key "",
  read_slot-empty (write_slot e key "") other,
  eq_iff (read_slot e other) "",
)

-- After `InvalidateProtocolAndIpVersion` the getter answers the address itself for that network and
-- version, in every cycle.
pub get-invalidate_protocol_and_ip_version :
    (c : ProxyIpCache) (t : ℕ) (addr network ip : String) (cycle : ℕ)
    → (get_with_cycle_and_ip_version
        (invalidate_protocol_and_ip_version c addr network ip)
        t
        addr
        network
        ip
        cycle).0
      ≡ addr
get-invalidate_protocol_and_ip_version c t addr network ip cycle =
    get-reply (invalidate_protocol_and_ip_version c addr network ip) t addr network ip cycle
    ∙ rw (lookup-invalidate_protocol_and_ip_version c addr network ip addr, eq_refl addr)
        (reply-cleared_same (lookup addr c.cache) t addr (cache_key network ip) cycle)

-- This invalidation changes no answer for another address, nor for another slot of
-- the same address.
pub get-invalidate_protocol_and_ip_version_ne :
    (c : ProxyIpCache) (t : ℕ) (addr network ip other network' ip' : String) (cycle : ℕ)
    → (addr ≢ other) ⊎ (cache_key network ip ≢ cache_key network' ip')
    → (get_with_cycle_and_ip_version
        (invalidate_protocol_and_ip_version c addr network ip)
        t
        other
        network'
        ip'
        cycle).0
      ≡ (get_with_cycle_and_ip_version c t other network' ip' cycle).0
get-invalidate_protocol_and_ip_version_ne c t addr network ip other network' ip' cycle h =
    get-reply (invalidate_protocol_and_ip_version c addr network ip) t other network' ip' cycle
    ∙ rw (lookup-invalidate_protocol_and_ip_version c addr network ip other) (kept h)
    ∙ sym (get-reply c t other network' ip' cycle)
  where
    k' : String
    k' = cache_key network' ip'

    same :
        (b : Bool)
        → str_eq addr other ≡ b
        → (addr ≢ other) ⊎ (cache_key network ip ≢ k')
        → reply
            (if b
              then cleared (lookup addr c.cache) (cache_key network ip)
              else lookup other c.cache)
            t
            other
            k'
            cycle
          ≡ reply (lookup other c.cache) t other k' cycle
    same false e h = refl
    same true e (inl ne) = absurd (ne ((eq_iff addr other).0 e))
    same true e (inr ne) =
        rw ((eq_iff addr other).0 e)
          (reply-cleared_ne (lookup other c.cache) t other (cache_key network ip) k' cycle ne)

    kept :
        (addr ≢ other) ⊎ (cache_key network ip ≢ k')
        → reply
            (if str_eq addr other
              then cleared (lookup addr c.cache) (cache_key network ip)
              else lookup other c.cache)
            t
            other
            k'
            cycle
          ≡ reply (lookup other c.cache) t other k' cycle
    kept = same (str_eq addr other) refl

lookup-invalidate_proxy_cycle :
    (c : ProxyIpCache) (addr other : String) (cycle : ℕ)
    → lookup other (invalidate_proxy_cycle c addr cycle).cache ≡ (
        if str_eq addr other
        then filtered (λ e. not (e.check_cycle == cycle)) (lookup other c.cache)
        else lookup other c.cache)
unfolding invalidate_proxy_cycle
lookup-invalidate_proxy_cycle c addr other cycle = elim (Option-cases (lookup addr c.cache)) [
  | inl e ↦ ground (arith, eq_iff addr other, e)
  | inr (v, e) ↦ ground (arith, eq_iff addr other, e, lookup-erase addr other c.cache)
]

-- Below the wrap of the counter, `IncrementCheckCycle` adds one to the cycle and drops exactly the
-- dialer's own entry, if it is of the cycle that ended; every other entry stays.
pub increment_check_cycle_lem :
    (d : StickyIpDialer) (other : String)
    → d.check_cycle + 1 < 2 ^ 64
    → ((increment_check_cycle d).check_cycle ≡ d.check_cycle + 1)
      × (lookup other (increment_check_cycle d).proxy_cache.cache ≡ (
          if str_eq d.proxy_addr other
          then filtered
              (λ e. not (e.check_cycle == d.check_cycle))
              (lookup other d.proxy_cache.cache)
          else lookup other d.proxy_cache.cache))
unfolding increment_check_cycle
increment_check_cycle_lem d other h =
    let n : (d.check_cycle + 1) % 2 ^ 64 ≡ d.check_cycle + 1 = omega arith in
    let m : ltb 0 (d.check_cycle + 1) ≡ true = ground arith in
    let k : d.check_cycle + 1 - 1 ≡ d.check_cycle = omega arith in
    rw (n, m, k)
      (refl, lookup-invalidate_proxy_cycle d.proxy_cache d.proxy_addr other d.check_cycle)
