-- ===== src/Congestion/RingBuffer.antt =====
-- protocol/tuic/congestion/bbr/ringbuffer.go. A slice is a list, an `int` position a natural
-- number, a panic `none`. `zero_value` is Go's `*new(T)`.
pub mod Laws
mod Tests
use outbound.Prelude.{ℕ, ◌+◌, ◌-◌, ◌*◌, ◌%◌, Bool, true, false, ◌&&◌, ◌||◌, not}
use outbound.Prelude.{List, ◌++◌, Option, some, none, length, get_elem?, set, take, drop}
use outbound.Prelude.{replicate, min, ltb, leb, ◌==◌, if◌then◌else◌}

-- Go's `copy(dst, src)`: the shorter length is copied. `copy_at` is `copy(dst[off:], src)`.
abbrev pub copy {ℓ} : {A : Type ℓ} → List A → List A → List A
copy dst src = take (length dst) src ++ drop (length src) dst

abbrev pub copy_at {ℓ} : {A : Type ℓ} → ℕ → List A → List A → List A
copy_at off dst src = take off dst ++ copy (drop off dst) src

pub record RingBuffer {ℓ} (A : Type ℓ) : Type ℓ where
  pub ring : List A
  pub head_pos : ℕ
  pub tail_pos : ℕ
  pub full : Bool

module _ {ℓ} {A : Type ℓ} where
  unfoldable pub capacity : RingBuffer A → ℕ
  capacity r = length r.ring

  unfoldable pub len : RingBuffer A → ℕ
  len r =
      if r.full
      then length r.ring
      else if leb r.head_pos r.tail_pos
      then r.tail_pos - r.head_pos
      else r.tail_pos + length r.ring - r.head_pos

  unfoldable pub is_empty : RingBuffer A → Bool
  is_empty r = not r.full && r.head_pos == r.tail_pos

  -- The index that stands `i` places behind the head, as `Offset` computes it.
  abbrev pub slot : RingBuffer A → ℕ → ℕ
  slot r i = (r.head_pos + i) % length r.ring

  unfoldable pub offset : RingBuffer A → ℕ → Option A
  offset r i = if is_empty r || leb (len r) i then none else get_elem? r.ring (slot r i)

  -- A write through the pointer that `Offset` returns.
  unfoldable pub set_offset : RingBuffer A → ℕ → A → Option (RingBuffer A)
  set_offset r i v =
      if is_empty r || leb (len r) i
      then none
      else some (record r { ring = set r.ring (slot r i) v })

  unfoldable pub front : RingBuffer A → Option A
  front r = if is_empty r then none else get_elem? r.ring r.head_pos

  unfoldable pub back : RingBuffer A → Option A
  back r = if is_empty r then none else offset r (len r - 1)

  -- `PushBack` after the growth check
  unfoldable pub push_at_tail : RingBuffer A → A → RingBuffer A
  push_at_tail r t =
      let tail = if r.tail_pos + 1 == length r.ring then 0 else r.tail_pos + 1 in
      record r {
        ring = set r.ring r.tail_pos t;
        tail_pos = tail;
        full = if tail == r.head_pos then true else r.full;
      }

module _ {ℓ} {A : Type ℓ} (zero_value : A) where
  unfoldable pub init : ℕ → RingBuffer A
  init size = record { ring = replicate size zero_value; head_pos = 0; tail_pos = 0; full = false }

  -- the two copies of `ShrinkTo`
  abbrev pub shrunk : RingBuffer A → ℕ → ℕ → List A
  shrunk r n size =
      let fresh = replicate size zero_value in
      let first = drop r.head_pos r.ring in
      if leb (r.head_pos + n) (length r.ring)
      then copy fresh (take n first)
      else let head = min size (length first) in
        copy_at head (copy fresh first) (take (n - head) r.ring)

  unfoldable pub shrink_to : RingBuffer A → ℕ → RingBuffer A
  shrink_to r size =
      if ltb size 1 || ltb size (len r) || leb (length r.ring) size then r else record {
        ring = if ltb 0 (len r) then shrunk r (len r) size else replicate size zero_value;
        head_pos = 0;
        tail_pos = len r % size;
        full = len r == size;
      }

  unfoldable pub grow : RingBuffer A → RingBuffer A
  grow r =
      let old = length r.ring in
      let new_size = if old * 2 == 0 then 1 else old * 2 in
      let fresh = copy (replicate new_size zero_value) (drop r.head_pos r.ring) in
      record {
        ring = copy_at (old - r.head_pos) fresh (take r.head_pos r.ring);
        head_pos = 0;
        tail_pos = old;
        full = false;
      }

  unfoldable pub push_back : RingBuffer A → A → RingBuffer A
  push_back r t = push_at_tail (if r.full || length r.ring == 0 then grow r else r) t

  unfoldable pub pop_front : RingBuffer A → Option (A × RingBuffer A)
  pop_front r = if is_empty r then none else elim (get_elem? r.ring r.head_pos) [
    | none ↦ none
    | some t ↦ some (
      t,
      record r {
        ring = set r.ring r.head_pos zero_value;
        head_pos = if r.head_pos + 1 == length r.ring then 0 else r.head_pos + 1;
        full = false;
      },
    )
  ]

  unfoldable pub clear : RingBuffer A → RingBuffer A
  clear r = record {
    ring = replicate (length r.ring) zero_value;
    head_pos = 0;
    tail_pos = 0;
    full = false;
  }
