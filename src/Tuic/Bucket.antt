-- ===== src/Tuic/Bucket.antt =====
-- `deFraggerBucket` of protocol/tuic/packet.go: the reassemblers of one packet id. No entry of the
-- slice is nil between two calls. The pool that a dropped packet returns to is left out.
pub mod Isolation
use outbound.Prelude.{ltb, leb, ◌==◌, if◌then◌else◌, length, get_elem?, set, take, ℕ, ◌+◌, ◌-◌}
use outbound.Prelude.{Bool, ◌&&◌, ◌||◌, not, Option, none, some, List, [], ◌∷◌, ◌++◌}
use outbound.Wire.{Bytes}
use outbound.Tuic.Packet.{Packet}
use outbound.Tuic.Fragment.{DeFragger, touch, new_de_fragger, is_expired, assembled_len}
use outbound.Tuic.Fragment.{same_addr_port, fragment_addr_port, feed, matches}
use outbound.Tuic.Address.{Address}

-- Where `feed` puts a packet.
pub data Choice : Type 0 where
  at_index : ℕ → Choice
  fresh dropped : Choice

-- The entry at `i` is overwritten by the last one, and the slice is one shorter.
unfoldable pub swap_remove : {A : Type 0} → ℕ → List A → List A
swap_remove i ds = elim (get_elem? ds (length ds - 1)) [
  | none ↦ ds
  | some last ↦ take (length ds - 1) (set ds i last)
]

-- the first of the indices whose reassembler passes a test
unfoldable pub first_such :
    {A : Type 0} → (DeFragger A → Bool) → List (DeFragger A) → List ℕ → Option ℕ
first_such test ds [] = none
first_such test ds (i ∷ is) =
    let rest = first_such test ds is in
    elim (get_elem? ds i) [ none ↦ rest | some d ↦ if test d then some i else rest ]

-- the first fragment that a reassembler holds
unfoldable pub first_held : List (Option Packet) → Option Packet
first_held [] = none
first_held (none ∷ s) = first_held s
first_held (some m ∷ s) = some m

module _ {A : Type 0} where
  -- `removeAt`; a negative index is out of range, too.
  pub remove_at : List (DeFragger A) → ℕ → List (DeFragger A)
  remove_at ds i = if leb (length ds) i then ds else swap_remove i ds

  -- `release`
  pub release_all : List (DeFragger A) → List (DeFragger A)
  release_all ds = []

  -- `pruneExpired` with the timeout `ttl`
  unfoldable pub prune_expired : ℕ → List (DeFragger A) → ℕ → List (DeFragger A)
  prune_expired ttl [] now = []
  prune_expired ttl (d ∷ ds) now =
      let rest = prune_expired ttl ds now in if is_expired d now ttl then rest else d ∷ rest

module _ {A : Type 0} (addr_port : Address → Option A) (eq : A → A → Bool) (room now : ℕ) where
  -- The bucket, the message that comes out, and the size that a longer buffer must have.
  abbrev pub Fed : Type 0
  Fed = List (DeFragger A) × Option (Bytes × Option A) × ℕ

  unfoldable pub candidates : Packet → ℕ → List (DeFragger A) → List ℕ
  candidates m i [] = []
  candidates m i (d ∷ ds) =
      let rest = candidates m (i + 1) ds in if matches addr_port eq d m then i ∷ rest else rest

  -- among several candidates: fragment 0 goes by its address, or to one that waits for it
  unfoldable pub choose_first : List (DeFragger A) → Packet → List ℕ → Choice
  choose_first ds m is =
      elim (first_such
        (λ d.
          d.has_first_frag && same_addr_port eq d.first_addr_port (fragment_addr_port addr_port m))
        ds is) [
          | some i ↦ at_index i
          | none ↦ elim (first_such (λ d. not d.has_first_frag) ds is) [
            | some i ↦ at_index i
            | none ↦ fresh
          ]
        ]

  -- A later fragment goes to the only one that has its first; `seen` is the one found so far.
  unfoldable pub choose_later : List (DeFragger A) → Option ℕ → List ℕ → Choice
  choose_later ds none [] = dropped
  choose_later ds (some i) [] = at_index i
  choose_later ds seen (i ∷ is) =
      let skip = choose_later ds seen is in
      let found = choose_later ds (some i) is in
      elim (get_elem? ds i) [
        | none ↦ skip
        | some d ↦ if d.has_first_frag then elim seen [ none ↦ found | some j ↦ dropped ] else skip
      ]

  unfoldable pub choose : List (DeFragger A) → Packet → List ℕ → Choice
  choose ds m [] = fresh
  choose ds m (i ∷ []) = at_index i
  choose ds m (i ∷ (j ∷ is)) =
      if m.frag_id == 0
      then choose_first ds m (i ∷ (j ∷ is))
      else choose_later ds none (i ∷ (j ∷ is))

  -- the size that the caller is told of
  abbrev pub wanted : DeFragger A → ℕ
  wanted d = if (assembled_len d).1 then (assembled_len d).0 else 0

  -- `feed` once the reassembler is chosen
  unfoldable pub feed_at : List (DeFragger A) → Packet → ℕ → Fed
  feed_at ds m i = elim (get_elem? ds i) [
    | none ↦ (ds, none, 0)
    | some d ↦
        let fed = feed addr_port d m room now in
        if (assembled_len d).1 && ltb room (assembled_len d).0
        then (ds, none, (assembled_len d).0)
        else elim fed.1 [
          | some out ↦ (swap_remove i ds, some out, (assembled_len d).0)
          | none ↦ (set ds i fed.0, none, wanted fed.0)
        ]
  ]

  -- `feed` without a packet: the first complete message that fits now comes out.
  pub feed_ready : List (DeFragger A) → ℕ → List (DeFragger A) → Fed
  feed_ready ds i [] = (ds, none, 0)
  feed_ready ds i (d ∷ rest) =
      let later = feed_ready ds (i + 1) rest in
      if (assembled_len d).1 && leb (assembled_len d).0 room
      then elim (first_held d.frags) [
        | none ↦ (set ds i (touch d now), none, (assembled_len d).0)
        | some trigger ↦
            let fed = feed addr_port d trigger room now in
            elim fed.1 [
              | some out ↦ (swap_remove i ds, some out, (assembled_len d).0)
              | none ↦ (set ds i fed.0, none, (assembled_len d).0)
            ]
      ]
      else later

  pub feed_packet : List (DeFragger A) → Packet → Fed
  feed_packet ds m =
      if leb m.frag_total 1 || leb m.frag_total m.frag_id
      then (ds, none, 0)
      else elim (choose ds m (candidates m 0 ds)) [
        | at_index i ↦ feed_at ds m i
        | fresh ↦ feed_at (ds ++ (new_de_fragger now ∷ [])) m (length ds)
        | dropped ↦ (ds, none, 0)
      ]

  pub feed_bucket : List (DeFragger A) → Option Packet → Fed
  feed_bucket ds none = feed_ready ds 0 ds
  feed_bucket ds (some m) = feed_packet ds m
