-- ===== src/Congestion/Sampler/Marks.antt =====
-- What `sentPacketPointer.consumed = true` changes in the map of the packet records, and what not.
use outbound.Prelude.{ltb, leb, ◌==◌, if◌then◌else◌, Bool-cases, Option-cases, length, get_elem?}
use outbound.Prelude.{set, length-set, get_elem?-set_ne, get_elem?_past, ℕ, zero, suc, ◌-◌, ◌≡◌}
use outbound.Prelude.{refl, sym, ap, ◌∙◌, ◌≢◌, inl, inr, true, false, ◌||◌, Option, none, some}
use outbound.Prelude.{List, [], ◌∷◌, arith}
use outbound.Congestion.PacketQueue.{EntryWrapper, PacketNumberIndexedQueue, is_empty}
use outbound.Congestion.PacketQueue.{get_entry_wrapper}
use outbound.Congestion.PacketQueue.Coherent.{slots, present_count, IsCoherent}
use outbound.Congestion.PacketQueue.Remove.{found_slot}
use outbound.Congestion.RingBuffer.Laws.Queue.{contents, IsValid, length-contents}
use outbound.Congestion.RingBuffer.Laws.Queue.{offset-contents, set_offset_lem}
use outbound.Congestion.Sampler.Records.{ConnectionStateOnSentPacket, PacketMap}
use outbound.Congestion.Sampler.State.{mark_consumed}
use outbound.Congestion.RingBuffer.{RingBuffer, set_offset, len as ring_len}

module _ {A : Type 0} where
  abbrev present_only : Option (EntryWrapper A) → Option (EntryWrapper A)
  present_only none = none
  present_only (some w) = if w.present then some w else none

  abbrev entry_at : List (EntryWrapper A) → ℕ → Option (EntryWrapper A)
  entry_at ws j = present_only (get_elem? ws j)

  wrapper_lem :
      (q : PacketNumberIndexedQueue A) (m : ℕ)
      → IsValid q.entries
      → get_entry_wrapper q m ≡ (
          if m == 0 || is_empty q || ltb m q.first_packet
          then none
          else entry_at (slots q) (m - q.first_packet))
  unfolding get_entry_wrapper
  wrapper_lem q m v =
      let j = m - q.first_packet in
      elim (Bool-cases (leb (ring_len q.entries) j)) [
        | inl e ↦
            let past =
              get_elem?_past (slots q) j (ground (arith, e, length-contents q.entries v)) in
            rw (offset-contents q.entries j v, e, entry_at, past) refl
        | inr e ↦ rw (offset-contents q.entries j v, e) refl
      ]

abbrev Wrapper : Type 0
Wrapper = EntryWrapper ConnectionStateOnSentPacket

abbrev marked : Wrapper → Wrapper
marked w = record w { entry = record w.entry { consumed = true } }

-- the size of the packet, if its record is there
abbrev size_in : Option Wrapper → Option ℕ
size_in none = none
size_in (some w) = some w.entry.size

abbrev pub size_of : PacketMap → ℕ → Option ℕ
size_of q n = size_in (get_entry_wrapper q n)

present_count-marked :
    (ws : List Wrapper) (i : ℕ) (w : Wrapper)
    → get_elem? ws i ≡ some w
    → present_count (set ws i (marked w)) ≡ present_count ws
unfolding present_count
present_count-marked [] i w h = refl
present_count-marked (x ∷ ws) zero w h = ground (arith, h)
present_count-marked (x ∷ ws) (suc i) w h = ground (arith, present_count-marked ws i w h)

size_marked :
    (ws : List Wrapper) (i j : ℕ) (w : Wrapper)
    → get_elem? ws i ≡ some w
    → size_in (entry_at (set ws i (marked w)) j) ≡ size_in (entry_at ws j)
size_marked [] i j w h = refl
size_marked (x ∷ ws) zero zero w h = ground (arith, h)
size_marked (x ∷ ws) zero (suc j) w h = refl
size_marked (x ∷ ws) (suc i) zero w h = refl
size_marked (x ∷ ws) (suc i) (suc j) w h = size_marked ws i j w h

-- Marking the record of packet `n` keeps the map coherent, the records of all other packets as they
-- are, and the sizes of all.
abbrev pub Marks : PacketMap → ℕ → PacketMap → Type 0
Marks q n q' =
    IsCoherent q'
    × ((m : ℕ) → m ≢ n → get_entry_wrapper q' m ≡ get_entry_wrapper q m)
    × ((m : ℕ) → size_of q' m ≡ size_of q m)

pub mark_none : (q : PacketMap) (n : ℕ) → get_entry_wrapper q n ≡ none → mark_consumed q n ≡ q
unfolding mark_consumed
mark_none q n e = rw (mark_consumed, e) refl

mark_some :
    (q : PacketMap) (n : ℕ) (w : Wrapper) (r : RingBuffer Wrapper)
    → get_entry_wrapper q n ≡ some w
    → set_offset q.entries (n - q.first_packet) (marked w) ≡ some r
    → mark_consumed q n ≡ record q { entries = r }
unfolding mark_consumed
mark_some q n w r e written = rw (mark_consumed, e, written) refl

module _ (q : PacketMap) (n : ℕ) (w : Wrapper) (h : IsCoherent q) (r : RingBuffer Wrapper) where
  others_differ :
      (m : ℕ)
      → m ≢ n
      → get_entry_wrapper q n ≡ some w
      → (m == 0 || is_empty q || ltb m q.first_packet) ≡ false
      → n - q.first_packet ≢ m - q.first_packet
  unfolding get_entry_wrapper
  others_differ m ne e g = ground (arith, ne, e, g)

  -- Writing the marked record over the slot of packet `n`.
  written-Marks :
      get_entry_wrapper q n ≡ some w
      → IsValid r
      → contents r ≡ set (slots q) (n - q.first_packet) (marked w)
      → Marks q n (record q { entries = r })
  unfolding is_empty
  written-Marks e v c =
      let i = n - q.first_packet in
      let (read, present, inside) = found_slot q n w e in
      let here : get_elem? (slots q) i ≡ some w =
        sym (offset-contents q.entries i h.valid) ∙ read in
      let q' : PacketMap = record q { entries = r } in
      (
        record {
          valid = v;
          counted = h.counted ∙ sym (ap present_count c ∙ present_count-marked (slots q) i w here);
          bounded = omega (arith, h.bounded, ap length c, length-set (slots q) i (marked w));
          room = h.room;
        },
        λ m ne.
            rw (wrapper_lem q' m v, wrapper_lem q m h.valid, c)
              (elim (Bool-cases (m == 0 || is_empty q || ltb m q.first_packet)) [
                | inl g ↦ rw g refl
                | inr g ↦ rw g (
                    ap present_only
                      (get_elem?-set_ne (slots q) (marked w) (others_differ m ne e g)))
              ]),
        λ m.
            rw (wrapper_lem q' m v, wrapper_lem q m h.valid, c)
              (elim (Bool-cases (m == 0 || is_empty q || ltb m q.first_packet)) [
                | inl g ↦ rw g refl
                | inr g ↦ rw g (size_marked (slots q) i (m - q.first_packet) w here)
              ]),
      )

pub mark_consumed_lem : (q : PacketMap) (n : ℕ) → IsCoherent q → Marks q n (mark_consumed q n)
mark_consumed_lem q n h = elim (Option-cases (get_entry_wrapper q n)) [
  | inl e ↦ rw (mark_none q n e) (h, λ m ne. refl, λ m. refl)
  | inr (w, e) ↦
      let i = n - q.first_packet in
      let (read, present, inside) = found_slot q n w e in
      let (r, written, v, c, same) = set_offset_lem q.entries i (marked w) h.valid inside in
      rw (mark_some q n w r e written) (written-Marks q n w h r e v c)
]
