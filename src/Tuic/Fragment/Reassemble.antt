-- ===== src/Tuic/Fragment/Reassemble.antt =====
-- `deFragger.Feed` puts the fragments of one message together in whatever order they come.
use outbound.Prelude.{◌==◌, Bool-cases, length, get_elem?, set, length-set, get_elem?-set_ne}
use outbound.Prelude.{replicate, ℕ, suc, ◌+◌, ◌%◌, ◌≤◌, ◌<◌, ◌≡◌, refl, sym, ap, ◌∙◌, ◌⊎◌, inl}
use outbound.Prelude.{inr, true, false, Option, none, some, List, map, arith}
use outbound.Wire.{Bytes}
use outbound.Fragment.Slots.{present, Fits, present-le, present-set, Fits-set, Fits-length}
use outbound.Fragment.Slots.{Fits-replicate, get_elem?-replicate, Fits-full, full_slot}
use outbound.Fragment.Slots.{lt_of_get_elem?, joined, weight, all_content, weight-set}
use outbound.Fragment.Slots.{weight-joined, weight-replicate, joined-full, present-replicate}
use outbound.Tuic.Address.{Address}
use outbound.Tuic.Packet.{Packet}
use outbound.Tuic.Fragment.{DeFragger, touch, assembled_len, start, store, finish}
use outbound.Tuic.Fragment.{fragment_addr_port, note_first, feed}
use mathlib.Core.Path.{subst}

abbrev pub payload_of : Packet → Bytes
payload_of m = m.payload

module _ {A : Type 0} (addr_port : Address → Option A) (fs : List Packet) (a : A) where
  -- A fragment of the message `fs`.
  pub record IsPart (m : Packet) : Type 0 where
    pub at : get_elem? fs m.frag_id ≡ some m
    pub total_is : m.frag_total ≡ length fs

  -- `fs` is a message of 2 to 255 fragments whose first one carries the address `a`.
  pub record IsMessage : Type 0 where
    pub many : 1 < length fs
    pub few : length fs < 256
    pub first : (m : Packet) → get_elem? fs 0 ≡ some m → fragment_addr_port addr_port m ≡ some a

  -- Fragment 0 is missing, or its address is noted.
  abbrev pub FirstIn : List (Option Packet) → DeFragger A → Type 0
  FirstIn s d =
      (get_elem? s 0 ≡ some none) ⊎ ((d.has_first_frag ≡ true) × (d.first_addr_port ≡ some a))

  -- The state after some of the fragments.
  pub record Partial (d : DeFragger A) : Type 0 where
    pub fits : Fits d.frags fs
    pub counted : d.count ≡ present d.frags
    pub weighed : d.total_len ≡ weight payload_of d.frags
    pub first_in : FirstIn d.frags d

  abbrev pub started : DeFragger A → Packet → ℕ → DeFragger A
  started d m now = start (touch d now) m

  -- The first fragment finds empty slots.
  pub start-Partial :
      (d : DeFragger A) (m : Packet) (now : ℕ)
      → IsMessage
      → IsPart m
      → d.count ≡ 0
      → Partial (started d m now) × ((started d m now).frags ≡ replicate (length fs) none)
  unfolding start touch
  start-Partial d m now v p e =
      let first : (d.count == 0) ≡ true = ground arith in
      rw (first, p.total_is)
        (
          record {
            fits = Fits-replicate fs;
            counted = sym (present-replicate Packet (length fs));
            weighed = sym (weight-replicate payload_of (length fs));
            first_in = inl (get_elem?-replicate (length fs) 0 none (omega (arith, v.many)));
          },
          refl,
        )

  pub start_same :
      (d : DeFragger A) (m : Packet) (now : ℕ)
      → Partial d
      → 0 < d.count
      → Partial (started d m now) × ((started d m now).frags ≡ d.frags)
  unfolding start touch
  start_same d m now v p =
      let later : (d.count == 0) ≡ false = ground arith in
      rw later (
        record { fits = v.fits; counted = v.counted; weighed = v.weighed; first_in = v.first_in },
        refl,
      )

  -- One more fragment.
  abbrev pub added : DeFragger A → Packet → DeFragger A
  added d m = store (note_first addr_port d m) m

  -- Noting the first fragment changes nothing but the address.
  note_first_lem :
      (d : DeFragger A) (m : Packet)
      → IsMessage
      → IsPart m
      → FirstIn d.frags d
      → ((note_first addr_port d m).frags ≡ d.frags)
        × ((note_first addr_port d m).count ≡ d.count)
        × ((note_first addr_port d m).total_len ≡ d.total_len)
        × FirstIn (set d.frags m.frag_id (some m)) (note_first addr_port d m)
  unfolding note_first
  note_first_lem d m v q f = elim (Bool-cases (m.frag_id == 0)) [
    | inl e ↦
        let zero_id : m.frag_id ≡ 0 = ground arith in
        let known : fragment_addr_port addr_port m ≡ some a =
          v.first m (subst (λ k. get_elem? fs k ≡ some m) zero_id q.at) in
        rw (e, known) (refl, refl, refl, inr (refl, refl))
    | inr e ↦ rw e (refl, refl, refl, kept e f)
  ]
    where
      kept :
          (m.frag_id == 0) ≡ false → FirstIn d.frags d → FirstIn (set d.frags m.frag_id (some m)) d
      kept e (inl h) = inl (get_elem?-set_ne d.frags (some m) (ground arith) ∙ h)
      kept e (inr h) = inr h

  store_lem :
      (d : DeFragger A) (m : Packet)
      → get_elem? d.frags m.frag_id ≡ some none
      → (((store d m).frags ≡ set d.frags m.frag_id (some m))
          × ((store d m).count ≡ (d.count + 1) % 256)
          × ((store d m).total_len ≡ d.total_len + length m.payload)
          × ((store d m).has_first_frag ≡ d.has_first_frag)
          × ((store d m).first_addr_port ≡ d.first_addr_port))
  unfolding store
  store_lem d m e = ground (arith, e)

  present_room :
      (d : DeFragger A) (m : Packet)
      → Partial d
      → get_elem? d.frags m.frag_id ≡ some none
      → suc (present d.frags) ≤ length fs
  present_room d m p e = omega (
    arith,
    present-set d.frags m.frag_id m e,
    present-le (set d.frags m.frag_id (some m)),
    length-set d.frags m.frag_id (some m),
    Fits-length d.frags fs p.fits,
  )

  pub added-Partial :
      (d : DeFragger A) (m : Packet)
      → IsMessage
      → IsPart m
      → Partial d
      → get_elem? d.frags m.frag_id ≡ some none
      → Partial (added d m) × ((added d m).frags ≡ set d.frags m.frag_id (some m))
  added-Partial d m v q p e =
      let n : DeFragger A = note_first addr_port d m in
      let (same_frags, same_count, same_len, first_in) = note_first_lem d m v q p.first_in in
      let free : get_elem? n.frags m.frag_id ≡ some none = rw same_frags e in
      let (frags, count, len, has, addr) = store_lem n m free in
      let filled : (added d m).frags ≡ set d.frags m.frag_id (some m) = rw (frags, same_frags) in
      (
        record {
          fits = rw filled (Fits-set d.frags fs m.frag_id m p.fits q.at);
          counted =
              rw (filled, present-set d.frags m.frag_id m e)
                (omega (arith, count, same_count, p.counted, present_room d m p e, v.few));
          weighed =
              rw (filled, weight-set payload_of d.frags m.frag_id m e)
                (omega (arith, len, same_len, p.weighed));
          first_in = rw (filled, has, addr) first_in;
        },
        filled,
      )

  -- Complete slots come out as one message, and others stay.
  pub finish_full :
      (d : DeFragger A) (room : ℕ)
      → IsMessage
      → Partial d
      → present d.frags ≡ length fs
      → length (all_content payload_of fs) ≤ room
      → (finish d room).1 ≡ some (all_content payload_of fs, some a)
  unfolding finish assembled_len
  finish_full d room v p full r =
      let n : present d.frags ≡ length d.frags = omega (arith, Fits-length d.frags fs p.fits) in
      let all : d.frags ≡ map some fs = Fits-full d.frags fs p.fits n in
      let bytes : joined payload_of d.frags ≡ all_content payload_of fs =
        joined-full payload_of d.frags fs p.fits n in
      let (has, addr) = noted all p.first_in in
      let fits : d.total_len ≤ room =
        omega (arith, p.weighed, weight-joined payload_of d.frags, ap length bytes) in
      ground (arith, has, addr, bytes, p.counted, n, fits)
    where
      noted :
          d.frags ≡ map some fs
          → FirstIn d.frags d
          → (d.has_first_frag ≡ true) × (d.first_addr_port ≡ some a)
      noted all (inl h) = absurd (full_slot fs 0 (subst (λ s. get_elem? s 0 ≡ some none) all h))
      noted all (inr h) = h

  pub finish_open :
      (d : DeFragger A) (room : ℕ)
      → Partial d
      → present d.frags < length fs
      → finish d room ≡ (d, none)
  unfolding finish assembled_len
  finish_open d room p open_slots = ground (arith, p.counted, Fits-length d.frags fs p.fits)

  pub feed_step :
      (d : DeFragger A) (m : Packet) (room now : ℕ)
      → IsMessage
      → IsPart m
      → Partial (started d m now)
      → feed addr_port d m room now ≡ finish (added (started d m now) m) room
  unfolding feed
  feed_step d m room now v q p = ground (
    arith,
    q.total_is,
    v.many,
    lt_of_get_elem? fs m.frag_id m q.at,
    Fits-length (started d m now).frags fs p.fits,
  )
