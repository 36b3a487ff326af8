-- ===== src/Hysteria2/Frag/Reassemble.antt =====
-- `Defragger.Feed` puts the fragments of one message together in whatever order they come.
use outbound.Prelude.{length, get_elem?, set, get_elem?-set_ne, take, replicate, All, take_all, ℕ}
use outbound.Prelude.{suc, ◌+◌, ◌%◌, ◌≤◌, ◌<◌, ◌≡◌, refl, sym, ap, ◌∙◌, ◌≢◌, false, Option, none}
use outbound.Prelude.{some, List, [], ◌∷◌, arith}
use outbound.Fragment.Slots.{present, Fits, present-set, Fits-set, Fits-length, Fits-replicate}
use outbound.Fragment.Slots.{get_elem?-replicate, lt_of_get_elem?, joined, weight, all_content}
use outbound.Fragment.Slots.{weight-set, weight-joined, weight-replicate, joined-full}
use outbound.Fragment.Slots.{present-replicate}
use outbound.Hysteria2.Frag.{UdpMessage, Defragger, payload_of, Fed, restart, fill, feed}
use outbound.Hysteria2.Frag.{feed_all}
use mathlib.Core.Path.{subst}

module _ (id : ℕ) (fs : List UdpMessage) where
  -- A fragment of message `id`, whose fragments are `fs`.
  pub record IsPart (m : UdpMessage) : Type 0 where
    pub at : get_elem? fs m.frag_id ≡ some m
    pub count_is : m.frag_count ≡ length fs
    pub packet_is : m.packet_id ≡ id

  pub record IsMessage : Type 0 where
    pub many : 1 < length fs
    pub few : length fs < 256

  -- The state after `n` of the fragments.
  record Partial (n : ℕ) (d : Defragger) : Type 0 where
    opened : d.closed ≡ false
    same_id : d.pkt_id ≡ id
    fits : Fits d.frags fs
    held_now : present d.frags ≡ n
    counted : d.count ≡ n
    weighed : d.size ≡ weight payload_of d.frags

  abbrev begun : Defragger → UdpMessage → Defragger
  begun d m = (restart d m).0

  abbrev filled : Defragger → UdpMessage → Defragger
  filled d m = record d {
    frags = set d.frags m.frag_id (some m);
    count = (d.count + 1) % 256;
    size = d.size + length m.payload;
  }

  restart-Partial :
      (d : Defragger) (m : UdpMessage)
      → IsMessage
      → IsPart m
      → d.closed ≡ false
      → Partial 1 (begun d m)
  unfolding restart
  restart-Partial d m v q o =
      let slots : List (Option UdpMessage) = replicate m.frag_count none in
      let j : m.frag_id < length fs = lt_of_get_elem? fs m.frag_id m q.at in
      let free : get_elem? slots m.frag_id ≡ some none =
        get_elem?-replicate m.frag_count m.frag_id none (omega (arith, q.count_is)) in
      record {
        opened = o;
        same_id = q.packet_is;
        fits =
            Fits-set slots fs m.frag_id m
              (subst (λ k. Fits (replicate k none) fs) (sym q.count_is) (Fits-replicate fs)) q.at;
        held_now =
            present-set slots m.frag_id m free ∙ ap suc (present-replicate UdpMessage m.frag_count);
        counted = refl;
        weighed = omega (
          arith,
          weight-set payload_of slots m.frag_id m free,
          weight-replicate payload_of m.frag_count,
        );
      }

  feed-restart :
      (d : Defragger) (m : UdpMessage)
      → IsMessage
      → IsPart m
      → d.closed ≡ false
      → d.frags ≡ []
      → feed d m ≡ restart d m
  unfolding feed
  feed-restart d m v q o e =
      ground (arith, q.count_is, v.many, v.few, lt_of_get_elem? fs m.frag_id m q.at, ap length e)

  feed-fill :
      (n : ℕ) (d : Defragger) (m : UdpMessage)
      → IsMessage
      → IsPart m
      → Partial n d
      → get_elem? d.frags m.frag_id ≡ some none
      → feed d m ≡ fill d m
  unfolding feed
  feed-fill n d m v q p e = ground (
    arith,
    q.count_is,
    q.packet_is,
    p.opened,
    p.same_id,
    v.many,
    v.few,
    lt_of_get_elem? fs m.frag_id m q.at,
    Fits-length d.frags fs p.fits,
    e,
  )

  filled-Partial :
      (n : ℕ) (d : Defragger) (m : UdpMessage)
      → IsPart m
      → Partial n d
      → suc n < 256
      → get_elem? d.frags m.frag_id ≡ some none
      → Partial (suc n) (filled d m)
  filled-Partial n d m q p few e = record {
    opened = p.opened;
    same_id = p.same_id;
    fits = Fits-set d.frags fs m.frag_id m p.fits q.at;
    held_now = present-set d.frags m.frag_id m e ∙ ap suc p.held_now;
    counted = omega (arith, p.counted);
    weighed = omega (arith, weight-set payload_of d.frags m.frag_id m e, p.weighed);
  }

  fill-open :
      (n : ℕ) (d : Defragger) (m : UdpMessage)
      → Partial (suc n) (filled d m)
      → suc n < length fs
      → fill d m ≡ (filled d m, none, [])
  unfolding fill
  fill-open n d m p k = ground (arith, p.counted, Fits-length (filled d m).frags fs p.fits)

  -- The message that comes out: the last fragment, with the whole payload, owning no buffer.
  abbrev pub whole : UdpMessage → UdpMessage
  whole m = record m {
    payload = all_content payload_of fs;
    frag_id = 0;
    frag_count = 1;
    pooled = false;
  }

  fill-full :
      (n : ℕ) (d : Defragger) (m : UdpMessage)
      → Partial (suc n) (filled d m)
      → suc n ≡ length fs
      → (fill d m).1 ≡ some (whole m)
  unfolding fill
  fill-full n d m p k =
      let len : length (filled d m).frags ≡ length fs = Fits-length (filled d m).frags fs p.fits in
      let bytes : joined payload_of (filled d m).frags ≡ all_content payload_of fs =
        joined-full payload_of (filled d m).frags fs p.fits (omega (arith, p.held_now)) in
      let enough : length (joined payload_of (filled d m).frags) ≤ (filled d m).size =
        omega (arith, p.weighed, weight-joined payload_of (filled d m).frags) in
      let all : take (filled d m).size (joined payload_of (filled d m).frags)
          ≡ all_content payload_of fs =
        take_all (filled d m).size (joined payload_of (filled d m).frags) enough ∙ bytes in
      ground (arith, p.counted, len, all)

  -- The messages that are still to come: each a fragment whose slot is free, no index twice.
  abbrev Free : List (Option UdpMessage) → List UdpMessage → Type 0
  Free s ms = All (λ (m : UdpMessage). get_elem? s m.frag_id ≡ some none) ms

  abbrev pub Distinct : List UdpMessage → Type 0
  Distinct [] = Unit
  Distinct (m ∷ ms) = All (λ (m' : UdpMessage). m.frag_id ≢ m'.frag_id) ms × Distinct ms

  Free-set :
      (s : List (Option UdpMessage)) (m : UdpMessage) (ms : List UdpMessage)
      → Free s ms
      → All (λ (m' : UdpMessage). m.frag_id ≢ m'.frag_id) ms
      → Free (set s m.frag_id (some m)) ms
  Free-set s m [] f h = tt
  Free-set s m (m' ∷ ms) f h = (get_elem?-set_ne s (some m) h.0 ∙ f.0, Free-set s m ms f.1 h.1)

  Free-replicate :
      (n : ℕ) (ms : List UdpMessage) → n ≡ length fs → All IsPart ms → Free (replicate n none) ms
  Free-replicate n [] e q = tt
  Free-replicate n (m ∷ ms) e q = (
    get_elem?-replicate n m.frag_id none (omega (arith, lt_of_get_elem? fs m.frag_id m q.0.at)),
    Free-replicate n ms e q.1,
  )

  abbrev next_of : Fed → List UdpMessage → Option UdpMessage
  next_of t ms =
      let rest = feed_all t.0 ms in
      elim t.1 as (λ _. Option UdpMessage) [ none ↦ rest | some r ↦ some r ]

  feed_all_step :
      (d : Defragger) (m : UdpMessage) (ms : List UdpMessage) {t : Fed}
      → feed d m ≡ t
      → feed_all d (m ∷ ms) ≡ next_of t ms
  unfolding feed_all
  feed_all_step d m ms e = ap (λ t. next_of t ms) e

  feed_rest :
      (n : ℕ) (d : Defragger) (m : UdpMessage) (ms : List UdpMessage)
      → IsMessage
      → Partial n d
      → All IsPart (m ∷ ms)
      → Free d.frags (m ∷ ms)
      → Distinct (m ∷ ms)
      → n + suc (length ms) ≡ length fs
      → (last : UdpMessage) × (feed_all d (m ∷ ms) ≡ some (whole last)) × IsPart last
  feed_rest n d m [] v p q f s k =
      let p' : Partial (suc n) (filled d m) =
        filled-Partial n d m q.0 p (omega (arith, v.few)) f.0 in
      (
        m,
        feed_all_step d m [] (feed-fill n d m v q.0 p f.0)
            ∙ ap
                (λ o. elim o as (λ _. Option UdpMessage) [
                  | none ↦ feed_all (fill d m).0 []
                  | some r ↦ some r
                ])
                (fill-full n d m p' (omega arith)),
        q.0,
      )
  feed_rest n d m (m' ∷ ms) v p q f s k =
      let p' : Partial (suc n) (filled d m) =
        filled-Partial n d m q.0 p (omega (arith, v.few)) f.0 in
      let (last, e, part) =
        feed_rest (suc n) (filled d m) m' ms v p' q.1 (Free-set d.frags m (m' ∷ ms) f.1 s.0) s.1
          (omega arith) in
      (
        last,
        feed_all_step d m (m' ∷ ms) (feed-fill n d m v q.0 p f.0 ∙ fill-open n d m p' (omega arith))
            ∙ e,
        part,
      )

  -- The fragments of a message of 2 to 255 fragments are fed in any order, none of them twice, to
  -- an open defragger that holds nothing. One message comes out: the payload whole, in the order of
  -- the indices, with the other fields of one of the fragments.
  pub defragger_any_order :
      (d : Defragger) (ms : List UdpMessage)
      → IsMessage
      → d.closed ≡ false
      → d.frags ≡ []
      → All IsPart ms
      → Distinct ms
      → length ms ≡ length fs
      → (last : UdpMessage) × (feed_all d ms ≡ some (whole last)) × IsPart last
  defragger_any_order d [] v o e q s n = absurd (omega (arith, v.many))
  defragger_any_order d (m ∷ []) v o e q s n = absurd (omega (arith, v.many))
  defragger_any_order d (m ∷ m' ∷ ms) v o e q s n =
      let p : Partial 1 (begun d m) = restart-Partial d m v q.0 o in
      let f : Free (begun d m).frags (m' ∷ ms) =
        unfold restart in
        Free-set (replicate m.frag_count none) m (m' ∷ ms)
          (Free-replicate m.frag_count (m' ∷ ms) q.0.count_is q.1) s.0 in
      let (last, r, part) = feed_rest 1 (begun d m) m' ms v p q.1 f s.1 (omega arith) in
      (last, feed_all_step d m (m' ∷ ms) (feed-restart d m v q.0 o e) ∙ unfold restart in r, part)
