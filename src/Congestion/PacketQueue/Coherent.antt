-- ===== src/Congestion/PacketQueue/Coherent.antt =====
-- The invariant of packet_number_indexed_queue.go, under the steps that `Emplace` is made of.
use outbound.Prelude.{if◌then◌else◌, length, get_elem?, length-append, drop, replicate, ℕ, zero}
use outbound.Prelude.{suc, ◌+◌, ◌-◌, ◌%◌, ◌^◌, ◌≤◌, ◌<◌, ◌≡◌, refl, sym, ap, ◌∙◌, true, some}
use outbound.Prelude.{List, [], ◌∷◌, ◌++◌, append-nil, append_assoc, arith}
use outbound.Congestion.PacketQueue.{EntryWrapper, PacketNumberIndexedQueue, is_empty}
use outbound.Congestion.PacketQueue.{get_entry_wrapper, get_entry, without, blank, drop_front}
use outbound.Congestion.PacketQueue.{push_blanks}
use outbound.Congestion.RingBuffer.Laws.Queue.{contents, IsValid, length-contents}
use outbound.Congestion.RingBuffer.Laws.Queue.{offset-contents}
use outbound.Congestion.RingBuffer.Laws.Resize.{push_back_lem, pop_front_lem}
use outbound.Congestion.RingBuffer.{RingBuffer, offset, push_back, len as ring_len}

get_elem?_last :
    {A : Type 0} (pre : List A) (x : A) → get_elem? (pre ++ (x ∷ [])) (length pre) ≡ some x
get_elem?_last [] x = refl
get_elem?_last (y ∷ pre) x =
    let e : suc (length pre) ≡ length (y ∷ pre) = omega arith in get_elem?_last pre x

module _ {A : Type 0} where
  -- The slots from the first packet on.
  abbrev pub slots : PacketNumberIndexedQueue A → List (EntryWrapper A)
  slots q = contents q.entries

  unfoldable pub present_count : List (EntryWrapper A) → ℕ
  present_count [] = 0
  present_count (w ∷ ws) = let rest = present_count ws in if w.present then suc rest else rest

  -- The count of present entries is right, and the slots keep within the budget.
  pub record IsCoherent (q : PacketNumberIndexedQueue A) : Type 0 where
    pub valid : IsValid q.entries
    pub counted : q.number_of_present_entries ≡ present_count (slots q)
    pub bounded : length (slots q) ≤ q.max_slots
    pub room : 0 < q.max_slots

  pub present_count-append :
      (xs ys : List (EntryWrapper A))
      → present_count (xs ++ ys) ≡ present_count xs + present_count ys
  unfolding present_count
  present_count-append [] ys = omega arith
  present_count-append (x ∷ xs) ys = ground (arith, present_count-append xs ys)

  pub present_count_le : (xs : List (EntryWrapper A)) → present_count xs ≤ length xs
  unfolding present_count
  present_count_le [] = omega arith
  present_count_le (x ∷ xs) = ground (arith, present_count_le xs)

  abbrev pub popped :
      PacketNumberIndexedQueue A
      → EntryWrapper A
      → RingBuffer (EntryWrapper A)
      → PacketNumberIndexedQueue A
  popped q w r = record q {
    entries = r;
    number_of_present_entries = without w q.number_of_present_entries;
    first_packet = q.first_packet + 1;
    truncated_slots = (q.truncated_slots + 1) % 2 ^ 64;
  }

  pub popped-IsCoherent :
      (q : PacketNumberIndexedQueue A) (w : EntryWrapper A) (r : RingBuffer (EntryWrapper A))
      → IsCoherent q
      → IsValid r
      → slots q ≡ w ∷ contents r
      → IsCoherent (popped q w r)
  unfolding present_count
  popped-IsCoherent q w r h v e = record {
    valid = v;
    counted = ground (arith, h.counted, ap present_count e);
    bounded = omega (arith, h.bounded, ap length e);
    room = h.room;
  }

  -- The slot of packet `n` is the last one, and holds `x`.
  pub get_entry_last :
      (q : PacketNumberIndexedQueue A) (n : ℕ) (pre : List (EntryWrapper A)) (w : EntryWrapper A)
      → IsValid q.entries
      → 0 < n
      → 0 < q.number_of_present_entries
      → w.present ≡ true
      → slots q ≡ pre ++ (w ∷ [])
      → n ≡ q.first_packet + length pre
      → get_entry q n ≡ some w.entry
  unfolding get_entry get_entry_wrapper is_empty
  get_entry_last q n pre w v pos some_present p e at =
      let back : n - q.first_packet ≡ length pre = omega (arith, at) in
      let size : ring_len q.entries ≡ length pre + 1 =
        omega (arith, length-contents q.entries v, ap length e, length-append pre (w ∷ [])) in
      let read : offset q.entries (length pre) ≡ some w =
        offset-contents q.entries (length pre) v
        ∙ ap (λ (l : List (EntryWrapper A)). get_elem? l (length pre)) e
        ∙ get_elem?_last pre w in
      ground (arith, back, size, read, p)

module _ {A : Type 0} (zero_value : A) where
  pub drop_front_lem :
      (q : PacketNumberIndexedQueue A) (n : ℕ)
      → IsCoherent q
      → n ≤ length (slots q)
      → IsCoherent (drop_front zero_value q n)
        × (slots (drop_front zero_value q n) ≡ drop n (slots q))
        × ((drop_front zero_value q n).first_packet ≡ q.first_packet + n)
        × ((drop_front zero_value q n).max_slots ≡ q.max_slots)
  unfolding drop_front
  drop_front_lem q zero h k = (h, refl, omega arith, refl)
  drop_front_lem q (suc n) h k =
      let some_slot : 0 < ring_len q.entries = omega (arith, length-contents q.entries h.valid) in
      let (w, r, e, v, s) = pop_front_lem (blank zero_value) q.entries h.valid some_slot in
      let c = popped-IsCoherent q w r h v s in
      let ih = drop_front_lem (popped q w r) n c (omega (arith, ap length s)) in
      rw (e, drop_front) (ih.0, ih.1 ∙ sym (ap (drop (suc n)) s), omega (arith, ih.2), ih.3)

  pub push_blanks_lem :
      (r : RingBuffer (EntryWrapper A)) (n : ℕ)
      → IsValid r
      → IsValid (push_blanks zero_value r n)
        × (contents (push_blanks zero_value r n) ≡ contents r ++ replicate n (blank zero_value))
  unfolding push_blanks
  push_blanks_lem r zero v = (v, sym (append-nil (contents r)))
  push_blanks_lem r (suc n) v =
      let b : EntryWrapper A = blank zero_value in
      let p = push_back_lem b r b v in
      let ih = push_blanks_lem (push_back b r b) n p.0 in
      (
        ih.0,
        ih.1
            ∙ ap (λ (l : List (EntryWrapper A)). l ++ replicate n b) p.1
            ∙ append_assoc (contents r) (b ∷ []) (replicate n b),
      )

  pub present_count-blanks : (n : ℕ) → present_count (replicate n (blank zero_value)) ≡ 0
  unfolding present_count
  present_count-blanks zero = refl
  present_count-blanks (suc n) = present_count-blanks n
