-- ===== src/Congestion/PacketQueue.antt =====
-- protocol/tuic/congestion/bbr/packet_number_indexed_queue.go. A packet number is kept as one more
-- than itself, so `invalidPacketNumber`, which is -1, is 0. A callback's argument is returned.
-- `int` counts are natural numbers: no count goes below 0 while it counts the slots that it should.
pub mod Coherent
pub mod Emplace
pub mod Trim
pub mod Remove
pub mod Survive
pub mod Drop
pub mod RemoveUpTo
mod Tests
use outbound.Prelude.{ltb, leb, ◌==◌, if◌then◌else◌, ℕ, zero, suc, ◌+◌, ◌-◌, ◌*◌, ◌/◌, ◌%◌, ◌^◌}
use outbound.Prelude.{Bool, true, false, ◌&&◌, ◌||◌, not, Option, none, some}
use outbound.Congestion.RingBuffer.{RingBuffer, capacity, push_back, pop_front, offset, set_offset}
use outbound.Congestion.RingBuffer.{shrink_to}
use outbound.Congestion.RingBuffer.{init as ring_init, len as ring_len}
use outbound.Congestion.RingBuffer.{is_empty as ring_is_empty}

pub record EntryWrapper (A : Type 0) : Type 0 where
  pub present : Bool
  pub entry : A

pub record PacketNumberIndexedQueue (A : Type 0) : Type 0 where
  pub entries : RingBuffer (EntryWrapper A)
  pub number_of_present_entries : ℕ
  pub first_packet : ℕ
  pub max_slots : ℕ
  pub initial_slots : ℕ
  pub truncated_slots : ℕ

abbrev shrink_denominator : ℕ
shrink_denominator = 4

module _ {A : Type 0} where
  unfoldable pub is_empty : PacketNumberIndexedQueue A → Bool
  is_empty q = q.number_of_present_entries == 0

  unfoldable pub last_packet : PacketNumberIndexedQueue A → ℕ
  last_packet q = if is_empty q then 0 else q.first_packet + ring_len q.entries - 1

  unfoldable pub get_entry_wrapper : PacketNumberIndexedQueue A → ℕ → Option (EntryWrapper A)
  get_entry_wrapper q n =
      if n == 0 || is_empty q || ltb n q.first_packet
      then none
      else if leb (ring_len q.entries) (n - q.first_packet)
      then none
      else elim (offset q.entries (n - q.first_packet)) [
        | none ↦ none
        | some w ↦ if w.present then some w else none
      ]

  unfoldable pub get_entry : PacketNumberIndexedQueue A → ℕ → Option A
  get_entry q n = elim (get_entry_wrapper q n) [ none ↦ none | some w ↦ some w.entry ]

  -- the number of present entries once `w` has left
  abbrev pub without : EntryWrapper A → ℕ → ℕ
  without w k = if w.present then k - 1 else k

-- `zero_value` is Go's `*new(T)`.
module _ {A : Type 0} (zero_value : A) where
  abbrev pub blank : EntryWrapper A
  blank = record { present = false; entry = zero_value }

  abbrev pub holding : A → EntryWrapper A
  holding x = record { present = true; entry = x }

  pub new_queue : ℕ → ℕ → PacketNumberIndexedQueue A
  new_queue initial_size max_size =
      let initial = if ltb initial_size 1 then 1 else initial_size in
      record {
        entries = ring_init blank initial;
        number_of_present_entries = 0;
        first_packet = 0;
        max_slots = if ltb max_size initial then initial else max_size;
        initial_slots = initial;
        truncated_slots = 0;
      }

  -- the loop of `dropFront`; `PopFront` returns what `Front` shows
  unfoldable pub drop_front : PacketNumberIndexedQueue A → ℕ → PacketNumberIndexedQueue A
  drop_front q zero = q
  drop_front q (suc n) = elim (pop_front blank q.entries) [
    | none ↦ q
    | some (w, r) ↦
        drop_front
          (record q {
            entries = r;
            number_of_present_entries = without w q.number_of_present_entries;
            first_packet = q.first_packet + 1;
            truncated_slots = (q.truncated_slots + 1) % 2 ^ 64;
          })
          n
  ]

  unfoldable pub restart : PacketNumberIndexedQueue A → ℕ → PacketNumberIndexedQueue A
  restart q n = record q {
    entries = ring_init blank q.initial_slots;
    number_of_present_entries = 0;
    first_packet = n;
    truncated_slots = (q.truncated_slots + ring_len q.entries) % 2 ^ 64;
  }

  -- `Emplace` fills a hole with absent slots.
  unfoldable pub push_blanks : RingBuffer (EntryWrapper A) → ℕ → RingBuffer (EntryWrapper A)
  push_blanks r zero = r
  push_blanks r (suc n) = push_blanks (push_back blank r blank) n

  -- `Emplace` where the gap is narrower than the budget
  unfoldable pub append_entry : PacketNumberIndexedQueue A → ℕ → A → PacketNumberIndexedQueue A
  append_entry q gap x =
      let d = drop_front q (ring_len q.entries + gap + 1 - q.max_slots) in
      record d {
        entries = push_back blank (push_blanks d.entries gap) (holding x);
        number_of_present_entries = d.number_of_present_entries + 1;
      }

  -- `Emplace` into a queue without present entries
  unfoldable pub anchor : PacketNumberIndexedQueue A → ℕ → A → PacketNumberIndexedQueue A
  anchor q n x = record q {
    entries = push_back blank q.entries (holding x);
    number_of_present_entries = 1;
    first_packet = n;
  }

  -- A `nil` entry is `none`.
  pub emplace : PacketNumberIndexedQueue A → ℕ → Option A → PacketNumberIndexedQueue A × Bool
  emplace q n none = (q, false)
  emplace q n (some x) =
      if n == 0
      then (q, false)
      else if is_empty q
      then (anchor q n x, true)
      else if leb n (last_packet q)
      then (q, false)
      else let gap = n - q.first_packet - ring_len q.entries in
        if leb q.max_slots gap
        then (anchor (restart q n) n x, true)
        else (append_entry q gap x, true)

  -- the loop of `reclaim`; a round halves the target, so the target is fuel enough
  reclaim_target : ℕ → ℕ → ℕ → ℕ → ℕ
  reclaim_target zero live initial target = target
  reclaim_target (suc fuel) live initial target =
      let rest = reclaim_target fuel live initial (target / 2) in
      if ltb initial target && leb (live * shrink_denominator) target then rest else target

  pub reclaim : PacketNumberIndexedQueue A → PacketNumberIndexedQueue A
  reclaim q =
      let live = ring_len q.entries in
      let size = capacity q.entries in
      let target =
        if ltb 0 live then reclaim_target size live q.initial_slots size else q.initial_slots in
      if leb size q.initial_slots || (ltb 0 live && leb size target)
      then q
      else record q { entries = shrink_to blank q.entries target }

  -- The end of `clearup` and of `DropConsumedFront`.
  pub settle : PacketNumberIndexedQueue A → PacketNumberIndexedQueue A
  settle q = reclaim (if ring_is_empty q.entries then record q { first_packet = 0 } else q)

  -- The loops that pop the front while a test on the first packet and the front slot holds; each
  -- round pops a slot, so their number is fuel enough.
  pub pop_while :
      (ℕ → EntryWrapper A → Bool) → ℕ → PacketNumberIndexedQueue A → PacketNumberIndexedQueue A
  pop_while test zero q = q
  pop_while test (suc fuel) q = elim (pop_front blank q.entries) [
    | none ↦ q
    | some (w, r) ↦
        let rest = pop_while test fuel (record q {
          entries = r;
          number_of_present_entries = without w q.number_of_present_entries;
          first_packet = q.first_packet + 1;
        }) in
        if test q.first_packet w then rest else q
  ]

  pub clearup : PacketNumberIndexedQueue A → PacketNumberIndexedQueue A
  clearup q = settle (pop_while (λ first w. not w.present) (ring_len q.entries) q)

  pub drop_consumed_front : PacketNumberIndexedQueue A → (A → Bool) → PacketNumberIndexedQueue A × ℕ
  drop_consumed_front q is_consumed =
      let d = pop_while (λ first w. not w.present || is_consumed w.entry) (ring_len q.entries) q in
      (settle d, ring_len q.entries - ring_len d.entries)

  pub remove_up_to : PacketNumberIndexedQueue A → ℕ → PacketNumberIndexedQueue A
  remove_up_to q n =
      clearup (pop_while (λ first w. not (first == 0) && ltb first n) (ring_len q.entries) q)

  pub remove : PacketNumberIndexedQueue A → ℕ → PacketNumberIndexedQueue A × Option A
  remove q n = elim (get_entry_wrapper q n) [
    | none ↦ (q, none)
    | some w ↦
        let marked = set_offset q.entries (n - q.first_packet) (record w { present = false }) in
        let q' : PacketNumberIndexedQueue A = record q {
          entries = elim marked [ none ↦ q.entries | some r ↦ r ];
          number_of_present_entries = q.number_of_present_entries - 1;
        } in
        ((if n == q.first_packet then clearup q' else q'), some w.entry)
  ]
