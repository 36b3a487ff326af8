-- ===== src/Hysteria2/Frag/Buffers.antt =====
-- `Defragger` neither loses nor releases twice a receive buffer.
use outbound.Prelude.{◌==◌, if◌then◌else◌, Option-cases, length, get_elem?, set, replicate}
use outbound.Prelude.{get_elem?_past, ℕ, zero, suc, ◌+◌, ◌≤◌, ◌<◌, ◌≡◌, refl, ap, ◌≢◌, inl, inr}
use outbound.Prelude.{Option, none, some, List, [], ◌∷◌, ◌++◌, arith}
use outbound.Hysteria2.Frag.{UdpMessage, Defragger, own, held, release_held, close, Fed, restart}
use outbound.Hysteria2.Frag.{fill, duplicate, feed}

-- how often a buffer stands in a list
abbrev pub count : ℕ → List ℕ → ℕ
count h [] = 0
count h (x ∷ xs) = if x == h then suc (count h xs) else count h xs

count-append : (h : ℕ) (xs ys : List ℕ) → count h (xs ++ ys) ≡ count h xs + count h ys
count-append h [] ys = omega arith
count-append h (x ∷ xs) ys = ground (arith, count-append h xs ys)

-- the buffer that goes to the caller with a message
abbrev pub returned : Option UdpMessage → List ℕ
returned none = []
returned (some m) = own m

held-set :
    (h : ℕ) (s : List (Option UdpMessage)) (j : ℕ) (m : UdpMessage)
    → get_elem? s j ≡ some none
    → count h (held (set s j (some m))) ≡ count h (held s) + count h (own m)
held-set h [] j m e = cc
held-set h (none ∷ s) zero m e = omega (arith, count-append h (own m) (held s))
held-set h (some x ∷ s) zero m e = cc
held-set h (none ∷ s) (suc j) m e = held-set h s j m e
held-set h (some x ∷ s) (suc j) m e = omega (
  arith,
  held-set h s j m e,
  count-append h (own x) (held s),
  count-append h (own x) (held (set s j (some m))),
)

held-replicate : (n : ℕ) → held (replicate n none) ≡ []
held-replicate zero = refl
held-replicate (suc n) = held-replicate n

free_slot : (n j : ℕ) → j < n → get_elem? (replicate {A = Option UdpMessage} n none) j ≡ some none
free_slot zero j h = absurd (omega arith)
free_slot (suc n) zero h = refl
free_slot (suc n) (suc j) h = free_slot n j (omega arith)

outside : {A : Type 0} (s : List A) (j : ℕ) → get_elem? s j ≡ none → length s ≤ j
outside [] j e = omega arith
outside (x ∷ s) zero e = cc
outside (x ∷ s) (suc j) e = omega (arith, outside s j e)

-- The buffers after a step, however often `h` stands among them.
abbrev pub accounted : ℕ → Fed → ℕ
accounted h (d, out, released) = count h (held d.frags) + count h (returned out) + count h released

restart_accounts :
    (h : ℕ) (d : Defragger) (m : UdpMessage)
    → m.frag_id < m.frag_count
    → accounted h (restart d m) ≡ count h (held d.frags) + count h (own m)
unfolding restart release_held
restart_accounts h d m lt = omega (
  arith,
  held-set h (replicate m.frag_count none) m.frag_id m (free_slot m.frag_count m.frag_id lt),
  ap (count h) (held-replicate m.frag_count),
)

fill_accounts :
    (h : ℕ) (d : Defragger) (m : UdpMessage)
    → get_elem? d.frags m.frag_id ≡ some none
    → accounted h (fill d m) ≡ count h (held d.frags) + count h (own m)
unfolding fill release_held
fill_accounts h d m e = ground (arith, held-set h d.frags m.frag_id m e)

-- A message that is not the very object held in its slot: `Feed` accounts for every buffer. Each
-- one that was held or came with the message is now held, released or with the caller, as often as
-- before; so none is lost, and none released twice.
pub feed_accounts :
    (h : ℕ) (d : Defragger) (m : UdpMessage)
    → ((x : UdpMessage) → get_elem? d.frags m.frag_id ≡ some (some x) → x.object ≢ m.object)
    → length d.frags < 256
    → accounted h (feed d m) ≡ count h (held d.frags) + count h (own m)
unfolding feed
feed_accounts h d m other few = elim (Option-cases (get_elem? d.frags m.frag_id)) [
  | inl e ↦ ground (
    arith,
    e,
    restart_accounts h d m,
    get_elem?_past d.frags m.frag_id,
    outside d.frags m.frag_id e,
  )
  | inr (none, e) ↦ ground (arith, e, restart_accounts h d m, fill_accounts h d m e)
  | inr (some x, e) ↦ unfold duplicate in ground (arith, e, restart_accounts h d m, other x e)
]

-- `Close` releases every held buffer, and holds none.
pub close_accounts :
    (h : ℕ) (d : Defragger)
    → (held (close d).0.frags ≡ []) × (count h (close d).1 ≡ count h (held d.frags))
unfolding close
close_accounts h d = (refl, refl)
