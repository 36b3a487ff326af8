-- ===== src/Congestion/PacketQueue/Emplace.antt =====
-- `Emplace` of packet_number_indexed_queue.go, and what `GetEntry` finds after it.
use outbound.Prelude.{leb, ◌==◌, Bool-cases, length, get_elem?, length-append, replicate}
use outbound.Prelude.{length-drop, length-replicate, ℕ, ◌+◌, ◌-◌, ◌≤◌, ◌<◌, ◌≡◌, refl, sym, ap}
use outbound.Prelude.{◌∙◌, inl, inr, true, false, none, some, List, [], ◌∷◌, ◌++◌, arith}
use outbound.Congestion.PacketQueue.{EntryWrapper, PacketNumberIndexedQueue, is_empty}
use outbound.Congestion.PacketQueue.{last_packet, get_entry_wrapper, get_entry, blank, holding}
use outbound.Congestion.PacketQueue.{drop_front, restart, push_blanks, append_entry, anchor}
use outbound.Congestion.PacketQueue.{emplace}
use outbound.Congestion.PacketQueue.Coherent.{slots, present_count, IsCoherent}
use outbound.Congestion.PacketQueue.Coherent.{present_count-append, present_count_le}
use outbound.Congestion.PacketQueue.Coherent.{get_entry_last, drop_front_lem, push_blanks_lem}
use outbound.Congestion.PacketQueue.Coherent.{present_count-blanks}
use outbound.Congestion.RingBuffer.Laws.Queue.{IsValid, length-contents, offset-contents}
use outbound.Congestion.RingBuffer.Laws.Resize.{push_back_lem}
use outbound.Congestion.RingBuffer.Laws.Shrink.{init_lem}
use outbound.Congestion.RingBuffer.{offset, push_back, len as ring_len}

module _ {A : Type 0} (zero_value : A) where
  -- What an `Emplace` that is accepted promises of the queue after it.
  abbrev pub Emplaced : ℕ → A → PacketNumberIndexedQueue A → Type 0
  Emplaced n x q = IsCoherent q × (get_entry q n ≡ some x)

  -- A fresh anchor: no slot stands before the entry.
  anchor_lem :
      (q : PacketNumberIndexedQueue A) (n : ℕ) (x : A)
      → IsValid q.entries
      → slots q ≡ []
      → 0 < q.max_slots
      → 0 < n
      → Emplaced n x (anchor zero_value q n x)
  unfolding anchor present_count
  anchor_lem q n x v none_left room pos =
      let b : EntryWrapper A = blank zero_value in
      let p = push_back_lem b q.entries (holding zero_value x) v in
      let one : slots (anchor zero_value q n x) ≡ holding zero_value x ∷ [] =
        p.1 ∙ ap (λ (l : List (EntryWrapper A)). l ++ (holding zero_value x ∷ [])) none_left in
      (
        record {
          valid = p.0;
          counted = sym (ap present_count one);
          bounded = omega (arith, ap length one);
          room = room;
        },
        get_entry_last (anchor zero_value q n x) n [] (holding zero_value x) p.0 pos (omega arith)
            refl one (omega arith),
      )

  append_entry_lem :
      (q : PacketNumberIndexedQueue A) (n gap : ℕ) (x : A)
      → IsCoherent q
      → 0 < n
      → n ≡ q.first_packet + length (slots q) + gap
      → gap < q.max_slots
      → Emplaced n x (append_entry zero_value q gap x)
  unfolding append_entry present_count
  append_entry_lem q n gap x h pos at narrow =
      let b : EntryWrapper A = blank zero_value in
      let w : EntryWrapper A = holding zero_value x in
      let size : ring_len q.entries ≡ length (slots q) = sym (length-contents q.entries h.valid) in
      let excess : ℕ = ring_len q.entries + gap + 1 - q.max_slots in
      let d = drop_front_lem zero_value q excess h (omega (arith, size, h.bounded)) in
      let q' : PacketNumberIndexedQueue A = drop_front zero_value q excess in
      let f = push_blanks_lem zero_value q'.entries gap d.0.valid in
      let p = push_back_lem b (push_blanks zero_value q'.entries gap) w f.0 in
      let pre : List (EntryWrapper A) = slots q' ++ replicate gap b in
      let all : slots (append_entry zero_value q gap x) ≡ pre ++ (w ∷ []) =
        p.1 ∙ ap (λ (l : List (EntryWrapper A)). l ++ (w ∷ [])) f.1 in
      let long : length pre ≡ length (slots q) - excess + gap = omega (
        arith,
        length-append (slots q') (replicate gap b),
        length-replicate gap b,
        ap length d.1,
        length-drop excess (slots q),
      ) in
      (
        record {
          valid = p.0;
          counted = omega (
            arith,
            ap present_count all,
            present_count-append pre (w ∷ []),
            present_count-append (slots q') (replicate gap b),
            present_count-blanks zero_value gap,
            d.0.counted,
          );
          bounded =
              omega (arith, ap length all, length-append pre (w ∷ []), long, size, h.bounded, d.3);
          room = omega (arith, h.room, d.3);
        },
        get_entry_last (append_entry zero_value q gap x) n pre w p.0 pos (omega arith) refl all
            (omega (arith, long, size, d.2, at, h.bounded)),
      )

  restart_lem :
      (q : PacketNumberIndexedQueue A) (n : ℕ) (x : A)
      → 0 < q.max_slots
      → 0 < n
      → Emplaced n x (anchor zero_value (restart zero_value q n) n x)
  unfolding restart
  restart_lem q n x room pos =
      let i = init_lem (blank zero_value) q.initial_slots in
      anchor_lem (restart zero_value q n) n x i.0 i.1 room pos

  -- A packet number beyond the last one, and no absent slots left where no entry is present:
  -- `Emplace` accepts the entry, the slots stay within the budget with the right count, and
  -- `GetEntry` finds the entry.
  pub emplace_lem :
      (q : PacketNumberIndexedQueue A) (n : ℕ) (x : A)
      → IsCoherent q
      → (q.number_of_present_entries ≡ 0 → slots q ≡ [])
      → last_packet q < n
      → ((emplace zero_value q n (some x)).1 ≡ true)
        × IsCoherent (emplace zero_value q n (some x)).0
        × (get_entry (emplace zero_value q n (some x)).0 n ≡ some x)
  unfolding emplace last_packet is_empty
  emplace_lem q n x h fresh beyond = elim (Bool-cases (q.number_of_present_entries == 0)) [
    | inl e ↦
        let a = anchor_lem q n x h.valid (fresh (ground arith)) h.room (ground arith) in
        let pos : (n == 0) ≡ false = ground arith in rw (pos, e) (refl, a.0, a.1)
    | inr e ↦
        let size : ring_len q.entries ≡ length (slots q) =
          sym (length-contents q.entries h.valid) in
        let some_slot : 0 < length (slots q) =
          ground (arith, h.counted, present_count_le (slots q)) in
        let far : q.first_packet + ring_len q.entries ≤ n = ground (arith, size, some_slot) in
        let pos : (n == 0) ≡ false = ground (arith, size, some_slot) in
        let last : leb n (q.first_packet + ring_len q.entries - 1) ≡ false =
          ground (arith, size, some_slot) in
        let gap : ℕ = n - q.first_packet - ring_len q.entries in
        elim (Bool-cases (leb q.max_slots gap)) [
          | inl wide ↦
              let r = restart_lem q n x h.room (ground arith) in
              rw (pos, e, last, wide) (refl, r.0, r.1)
          | inr narrow ↦
              let r =
                append_entry_lem q n gap x h (ground arith) (omega (arith, size, far))
                  (ground arith) in
              rw (pos, e, last, narrow) (refl, r.0, r.1)
        ]
  ]

  -- No entry is present, but an absent slot is left in front: `Emplace` accepts the entry, and
  -- `GetEntry` does not find it.
  pub emplace_lost :
      (q : PacketNumberIndexedQueue A) (n : ℕ) (x : A) (w : EntryWrapper A)
      (ws : List (EntryWrapper A))
      → IsValid q.entries
      → q.number_of_present_entries ≡ 0
      → slots q ≡ w ∷ ws
      → w.present ≡ false
      → 0 < n
      → ((emplace zero_value q n (some x)).1 ≡ true)
        × (get_entry (emplace zero_value q n (some x)).0 n ≡ none)
  unfolding emplace is_empty anchor get_entry get_entry_wrapper
  emplace_lost q n x w ws v empty s absent pos =
      let b : EntryWrapper A = blank zero_value in
      let p = push_back_lem b q.entries (holding zero_value x) v in
      let read : offset (push_back b q.entries (holding zero_value x)) 0 ≡ some w =
        offset-contents (push_back b q.entries (holding zero_value x)) 0 p.0
        ∙ ap (λ (l : List (EntryWrapper A)). get_elem? l 0)
            (p.1 ∙ ap (λ (l : List (EntryWrapper A)). l ++ (holding zero_value x ∷ [])) s) in
      let zero_off : n - n ≡ 0 = omega arith in ground (arith, read, empty, absent, pos, zero_off)
