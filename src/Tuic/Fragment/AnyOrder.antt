-- ===== src/Tuic/Fragment/AnyOrder.antt =====
-- `deFragger` reassembles a message whatever the order in which its fragments come.
use outbound.Prelude.{length, get_elem?, set, get_elem?-set_ne, replicate, All, ℕ, suc, ◌+◌, ◌≤◌}
use outbound.Prelude.{◌<◌, ◌≡◌, sym, ap, ◌∙◌, ◌≢◌, Option, none, some, List, [], ◌∷◌, arith}
use outbound.Wire.{Bytes}
use outbound.Fragment.Slots.{present, present-set, get_elem?-replicate, lt_of_get_elem?}
use outbound.Fragment.Slots.{all_content, present-replicate}
use outbound.Tuic.Address.{Address}
use outbound.Tuic.Packet.{Packet}
use outbound.Tuic.Fragment.{DeFragger, feed, feed_all}
use outbound.Tuic.Fragment.Reassemble.{payload_of, IsPart, IsMessage, Partial, started}
use outbound.Tuic.Fragment.Reassemble.{start-Partial, start_same, added, added-Partial}
use outbound.Tuic.Fragment.Reassemble.{finish_full, finish_open, feed_step}
use mathlib.Core.Path.{subst}

module _ {A : Type 0} (addr_port : Address → Option A) (fs : List Packet) (a : A) where
  -- The packets that are still to come: each a fragment whose slot is free, no index twice.
  abbrev Free : List (Option Packet) → List Packet → Type 0
  Free s ms = All (λ (m : Packet). get_elem? s m.frag_id ≡ some none) ms

  abbrev pub Distinct : List Packet → Type 0
  Distinct [] = Unit
  Distinct (m ∷ ms) = All (λ (m' : Packet). m.frag_id ≢ m'.frag_id) ms × Distinct ms

  Free-set :
      (s : List (Option Packet)) (m : Packet) (ms : List Packet)
      → Free s ms
      → All (λ (m' : Packet). m.frag_id ≢ m'.frag_id) ms
      → Free (set s m.frag_id (some m)) ms
  Free-set s m [] f h = tt
  Free-set s m (m' ∷ ms) f h = (get_elem?-set_ne s (some m) h.0 ∙ f.0, Free-set s m ms f.1 h.1)

  module _ (room now : ℕ) where
    feed_all_done :
        (d : DeFragger A) (m : Packet) (ms : List Packet) {r : Bytes × Option A}
        → (feed addr_port d m room now).1 ≡ some r
        → feed_all addr_port room now d (m ∷ ms) ≡ some r
    unfolding feed_all
    feed_all_done d m ms e = ground (arith, e)

    feed_all_more :
        (d d' : DeFragger A) (m : Packet) (ms : List Packet)
        → feed addr_port d m room now ≡ (d', none)
        → feed_all addr_port room now d (m ∷ ms) ≡ feed_all addr_port room now d' ms
    unfolding feed_all
    feed_all_more d d' m ms e =
        ap
          (λ (t : DeFragger A × Option (Bytes × Option A)).
            let rest = feed_all addr_port room now t.0 ms in
            elim t.1 as (λ _. Option (Bytes × Option A)) [ none ↦ rest | some r ↦ some r ])
          e

    abbrev whole : Bytes
    whole = all_content payload_of fs

    abbrev begun : DeFragger A → Packet → DeFragger A
    begun d m = started addr_port fs a d m now

    abbrev with_one : DeFragger A → Packet → DeFragger A
    with_one d m = added addr_port fs a (begun d m) m

    -- what is known before a packet is fed
    record Before (d : DeFragger A) (m : Packet) (ms : List Packet) : Type 0 where
      part : IsPart addr_port fs a m
      state : Partial addr_port fs a (begun d m)
      free : get_elem? (begun d m).frags m.frag_id ≡ some none
      others : Free (begun d m).frags ms
      apart : All (λ (m' : Packet). m.frag_id ≢ m'.frag_id) ms

    record After (d : DeFragger A) (ms : List Packet) (n : ℕ) : Type 0 where
      state : Partial addr_port fs a d
      free : Free d.frags ms
      held : present d.frags ≡ suc n

    one_more :
        (d : DeFragger A) (m : Packet) (ms : List Packet)
        → IsMessage addr_port fs a
        → Before d m ms
        → After (with_one d m) ms (present (begun d m).frags)
    one_more d m ms v b =
        let (p, filled) = added-Partial addr_port fs a (begun d m) m v b.part b.state b.free in
        record {
          state = p;
          free = rw filled (Free-set (begun d m).frags m ms b.others b.apart);
          held = rw filled (present-set (begun d m).frags m.frag_id m b.free);
        }

    last_one :
        (d : DeFragger A) (m : Packet)
        → IsMessage addr_port fs a
        → length whole ≤ room
        → Before d m []
        → suc (present (begun d m).frags) ≡ length fs
        → feed_all addr_port room now d (m ∷ []) ≡ some (whole, some a)
    last_one d m v r b n =
        let after = one_more d m [] v b in
        let full : present (with_one d m).frags ≡ length fs = omega (arith, after.held) in
        feed_all_done d m [] (
          ap (λ t. t.1) (feed_step addr_port fs a d m room now v b.part b.state)
          ∙ finish_full addr_port fs a (with_one d m) room v after.state full r)

    not_last :
        (d : DeFragger A) (m : Packet) (ms : List Packet)
        → IsMessage addr_port fs a
        → Before d m ms
        → suc (present (begun d m).frags) < length fs
        → feed_all addr_port room now d (m ∷ ms) ≡ feed_all addr_port room now (with_one d m) ms
    not_last d m ms v b n =
        let after = one_more d m ms v b in
        feed_all_more d (with_one d m) m ms (
          feed_step addr_port fs a d m room now v b.part b.state
          ∙ finish_open addr_port fs a (with_one d m) room after.state (omega (arith, after.held)))

    later :
        (d : DeFragger A) (m : Packet) (ms : List Packet) (n : ℕ)
        → All (IsPart addr_port fs a) (m ∷ ms)
        → Distinct (m ∷ ms)
        → After d (m ∷ ms) n
        → Before d m ms × (present (begun d m).frags ≡ suc n)
    later d m ms n q s w =
        let (p, same) =
          start_same addr_port fs a d m now w.state (omega (arith, w.state.counted, w.held)) in
        (
          record {
            part = q.0;
            state = p;
            free = rw same w.free.0;
            others = rw same w.free.1;
            apart = s.0;
          },
          rw same w.held,
        )

    -- the fragments that are still missing, fed to a state that has some
    feed_rest :
        (d : DeFragger A) (m : Packet) (ms : List Packet) (n : ℕ)
        → IsMessage addr_port fs a
        → length whole ≤ room
        → All (IsPart addr_port fs a) (m ∷ ms)
        → Distinct (m ∷ ms)
        → After d (m ∷ ms) n
        → suc n + suc (length ms) ≡ length fs
        → feed_all addr_port room now d (m ∷ ms) ≡ some (whole, some a)
    feed_rest d m [] n v r q s w k =
        let (b, held) = later d m [] n q s w in last_one d m v r b (omega arith)
    feed_rest d m (m' ∷ ms) n v r q s w k =
        let (b, held) = later d m (m' ∷ ms) n q s w in
        let after = one_more d m (m' ∷ ms) v b in
        not_last d m (m' ∷ ms) v b (omega arith)
        ∙ feed_rest (with_one d m) m' ms (present (begun d m).frags) v r q.1 s.1 after (omega arith)

  Free-replicate :
      (ms : List Packet) → All (IsPart addr_port fs a) ms → Free (replicate (length fs) none) ms
  Free-replicate [] q = tt
  Free-replicate (m ∷ ms) q = (
    get_elem?-replicate (length fs) m.frag_id none (lt_of_get_elem? fs m.frag_id m q.0.at),
    Free-replicate ms q.1,
  )

  -- The fragments of a message of 2 to 255 fragments, whose first carries a valid address, are fed
  -- in any order, none of them twice, to a reassembler that holds nothing, with room for the
  -- message: the payload comes out whole, in the order of the indices, with that address.
  pub feed_any_order :
      (room now : ℕ) (d : DeFragger A) (ms : List Packet)
      → IsMessage addr_port fs a
      → d.count ≡ 0
      → All (IsPart addr_port fs a) ms
      → Distinct ms
      → length ms ≡ length fs
      → length (all_content payload_of fs) ≤ room
      → feed_all addr_port room now d ms ≡ some (all_content payload_of fs, some a)
  feed_any_order room now d [] v e q s n r = absurd (omega (arith, v.many))
  feed_any_order room now d (m ∷ []) v e q s n r = absurd (omega (arith, v.many))
  feed_any_order room now d (m ∷ m' ∷ ms) v e q s n r =
      let (p, same) = start-Partial addr_port fs a d m now v q.0 e in
      let empty : present (started addr_port fs a d m now).frags ≡ 0 =
        rw same (present-replicate Packet (length fs)) in
      let b : Before room now d m (m' ∷ ms) = record {
        part = q.0;
        state = p;
        free = rw same (
            get_elem?-replicate (length fs) m.frag_id none (lt_of_get_elem? fs m.frag_id m q.0.at));
        others = subst (λ s. Free s (m' ∷ ms)) (sym same) (Free-replicate (m' ∷ ms) q.1);
        apart = s.0;
      } in
      not_last room now d m (m' ∷ ms) v b (omega arith)
      ∙ feed_rest room now (with_one room now d m) m' ms 0 v r q.1 s.1
          (subst (After room now (with_one room now d m) (m' ∷ ms)) empty
            (one_more room now d m (m' ∷ ms) v b))
          (omega arith)
