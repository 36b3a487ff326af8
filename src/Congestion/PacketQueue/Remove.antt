-- ===== src/Congestion/PacketQueue/Remove.antt =====
-- `Remove` of packet_number_indexed_queue.go.
use outbound.Prelude.{◌==◌, Bool-cases, length, get_elem?, set, length-set, ℕ, zero, suc, ◌+◌}
use outbound.Prelude.{◌-◌, ◌<◌, ◌≡◌, refl, sym, ap, ◌∙◌, inl, inr, true, false, some, List, []}
use outbound.Prelude.{◌∷◌, arith}
use outbound.Congestion.PacketQueue.{EntryWrapper, PacketNumberIndexedQueue, get_entry_wrapper}
use outbound.Congestion.PacketQueue.{get_entry, remove}
use outbound.Congestion.PacketQueue.Coherent.{slots, present_count, IsCoherent}
use outbound.Congestion.PacketQueue.Trim.{clearup-IsCoherent}
use outbound.Congestion.RingBuffer.Laws.Queue.{offset-contents, set_offset_lem}
use outbound.Congestion.RingBuffer.{offset, len as ring_len}

module _ {A : Type 0} where
  pub found_slot :
      (q : PacketNumberIndexedQueue A) (n : ℕ) (w : EntryWrapper A)
      → get_entry_wrapper q n ≡ some w
      → (offset q.entries (n - q.first_packet) ≡ some w)
        × (w.present ≡ true)
        × (n - q.first_packet < ring_len q.entries)
  unfolding get_entry_wrapper
  found_slot q n w h = ground (arith, h)

  present_count-set :
      (ws : List (EntryWrapper A)) (i : ℕ) (w w' : EntryWrapper A)
      → get_elem? ws i ≡ some w
      → w.present ≡ true
      → w'.present ≡ false
      → present_count (set ws i w') + 1 ≡ present_count ws
  unfolding present_count
  present_count-set [] i w w' h p a = absurd (ground (arith, h))
  present_count-set (x ∷ ws) zero w w' h p a = ground (arith, h, p, a)
  present_count-set (x ∷ ws) (suc i) w w' h p a = ground (arith, present_count-set ws i w w' h p a)

module _ {A : Type 0} (zero_value : A) where
  -- A packet that `GetEntry` finds: `Remove` passes its entry to the callback, and leaves the count
  -- of present entries right and the slots within the budget.
  pub remove_lem :
      (q : PacketNumberIndexedQueue A) (n : ℕ) (w : EntryWrapper A)
      → IsCoherent q
      → get_entry_wrapper q n ≡ some w
      → ((remove zero_value q n).1 ≡ get_entry q n) × IsCoherent (remove zero_value q n).0
  unfolding remove get_entry
  remove_lem q n w h found =
      let (read, here, inside) = found_slot q n w found in
      let w' : EntryWrapper A = record w { present = false } in
      let i : ℕ = n - q.first_packet in
      let (r, eq, v, s, c) = set_offset_lem q.entries i w' h.valid inside in
      let at : get_elem? (slots q) i ≡ some w = sym (offset-contents q.entries i h.valid) ∙ read in
      let q' : PacketNumberIndexedQueue A = record q {
        entries = r;
        number_of_present_entries = q.number_of_present_entries - 1;
      } in
      let k : IsCoherent q' = record {
        valid = v;
        counted =
            omega (
              arith,
              h.counted,
              ap present_count s,
              present_count-set (slots q) i w w' at here refl,
            );
        bounded = omega (arith, h.bounded, ap length s, length-set (slots q) i w');
        room = h.room;
      } in
      elim (Bool-cases (n == q.first_packet)) [
        | inl e ↦ rw (remove, get_entry, found, eq, e) (refl, clearup-IsCoherent zero_value q' k)
        | inr e ↦ rw (remove, get_entry, found, eq, e) (refl, k)
      ]
