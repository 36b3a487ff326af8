-- ===== src/Tuic/Bucket/Isolation.antt =====
-- A fragment changes other reassembler that it does not belong to.
use outbound.Prelude.{ltb, leb, ◌==◌, Bool-cases, if_holds, option_holds, length, get_elem?, set}
use outbound.Prelude.{length-append, get_elem?-set_self, get_elem?-set_ne, All}
use outbound.Prelude.{get_elem?-append_left, get_elem?-append_right, get_elem?-take}
use outbound.Prelude.{get_elem?_of_lt, ℕ, zero, suc, ◌+◌, ◌-◌, ◌<◌, ◌≡◌, refl, sym, ap, ◌∙◌, ◌≢◌}
use outbound.Prelude.{inl, inr, Bool, true, false, ◌&&◌, ◌||◌, Option, none, some, List, [], ◌∷◌}
use outbound.Prelude.{◌++◌, append_assoc, arith}
use outbound.Tuic.Packet.{Packet}
use outbound.Tuic.Fragment.{DeFragger, new_de_fragger, assembled_len, feed, matches}
use outbound.Tuic.Address.{Address}
use outbound.Tuic.Bucket.{Choice, at_index, fresh, dropped, swap_remove, first_such, Fed}
use outbound.Tuic.Bucket.{candidates, choose_first, choose_later, choose, feed_at, feed_packet}
use outbound.Tuic.Bucket.{feed_bucket}

-- `d` stands in the list.
abbrev pub In : {A : Type 0} → A → List A → Type 0
In d ds = (j : ℕ) × (get_elem? ds j ≡ some d)

index_lt : {A : Type 0} (ds : List A) (i : ℕ) (d : A) → get_elem? ds i ≡ some d → i < length ds
index_lt [] i d h = absurd (ground (arith, h))
index_lt (x ∷ ds) zero d h = omega arith
index_lt (x ∷ ds) (suc i) d h = omega (arith, index_lt ds i d h)

-- What a choice names has a property.
abbrev Chosen : (ℕ → Type 0) → Choice → Type 0
Chosen P (at_index i) = P i
Chosen P fresh = Unit
Chosen P dropped = Unit

abbrev Found : (ℕ → Type 0) → Option ℕ → Type 0
Found P none = Unit
Found P (some i) = P i

choice_or :
    (P : ℕ → Type 0) (o : Option ℕ) (c : Choice)
    → Found P o
    → Chosen P c
    → Chosen P (elim o [ some i ↦ at_index i | none ↦ c ])
choice_or P none c h k = k
choice_or P (some i) c h k = h

module _ {A : Type 0} where
  In-set :
      (d : A) (ds : List A) (i j : ℕ) (x : A) → i ≢ j → get_elem? ds j ≡ some d → In d (set ds i x)
  In-set d ds i j x ne h = (j, get_elem?-set_ne ds x ne ∙ h)

  In-swap_remove :
      (d : A) (ds : List A) (i j : ℕ)
      → i < length ds
      → i ≢ j
      → get_elem? ds j ≡ some d
      → In d (swap_remove i ds)
  unfolding swap_remove
  In-swap_remove d ds i j lt ne h =
      let jlt : j < length ds = index_lt ds j d h in
      let (last, e) = get_elem?_of_lt ds (length ds - 1) (omega (arith, jlt)) in
      elim (Bool-cases (j == length ds - 1)) [
        | inl q ↦
            let same : j ≡ length ds - 1 = ground arith in
            let is_last : last ≡ d = ground (arith, sym e ∙ ap (get_elem? ds) (sym same) ∙ h) in
            rw (swap_remove, e)
              (
                i,
                get_elem?-take (length ds - 1) (set ds i last) i
                      (omega (arith, same, λ (q : i ≡ j). ne q))
                    ∙ get_elem?-set_self ds i last lt
                    ∙ ap some is_last,
              )
        | inr q ↦
            let before : j < length ds - 1 = ground (arith, jlt) in
            rw (swap_remove, e)
              (
                j,
                get_elem?-take (length ds - 1) (set ds i last) j before
                    ∙ get_elem?-set_ne ds last ne
                    ∙ h,
              )
      ]

  first_such-Found :
      (P : ℕ → Type 0) (test : DeFragger A → Bool) (ds : List (DeFragger A)) (is : List ℕ)
      → All P is
      → Found P (first_such test ds is)
  unfolding first_such
  first_such-Found P test ds [] h = tt
  first_such-Found P test ds (i ∷ is) h =
      let rest = first_such-Found P test ds is h.1 in
      option_holds (Found P) (get_elem? ds i) rest λ d. if_holds (Found P) (test d) h.0 rest

module _ {A : Type 0} (addr_port : Address → Option A) (eq : A → A → Bool) (room now : ℕ) where
  choose_first-Chosen :
      (P : ℕ → Type 0) (ds : List (DeFragger A)) (m : Packet) (is : List ℕ)
      → All P is
      → Chosen P (choose_first addr_port eq room now ds m is)
  unfolding choose_first
  choose_first-Chosen P ds m is h =
      choice_or P _ _ (first_such-Found P _ ds is h)
        (choice_or P _ fresh (first_such-Found P _ ds is h) tt)

  choose_later-Chosen :
      (P : ℕ → Type 0) (ds : List (DeFragger A)) (seen : Option ℕ) (is : List ℕ)
      → Found P seen
      → All P is
      → Chosen P (choose_later addr_port eq room now ds seen is)
  unfolding choose_later
  choose_later-Chosen P ds none [] s h = tt
  choose_later-Chosen P ds (some i) [] s h = s
  choose_later-Chosen P ds seen (i ∷ is) s h =
      let skip = choose_later-Chosen P ds seen is s h.1 in
      let found = choose_later-Chosen P ds (some i) is h.0 h.1 in
      option_holds (Chosen P) (get_elem? ds i) skip
        λ d. if_holds (Chosen P) d.has_first_frag (option_holds (Chosen P) seen found λ j. tt) skip

  choose-Chosen :
      (P : ℕ → Type 0) (ds : List (DeFragger A)) (m : Packet) (is : List ℕ)
      → All P is
      → Chosen P (choose addr_port eq room now ds m is)
  unfolding choose
  choose-Chosen P ds m [] h = tt
  choose-Chosen P ds m (i ∷ []) h = h.0
  choose-Chosen P ds m (i ∷ (j ∷ is)) h =
      if_holds (Chosen P) (m.frag_id == 0) (choose_first-Chosen P ds m (i ∷ (j ∷ is)) h)
        (choose_later-Chosen P ds none (i ∷ (j ∷ is)) tt h)

  -- The reassembler at an index takes the packet.
  abbrev Takes : List (DeFragger A) → Packet → ℕ → Type 0
  Takes ds m i = (d : DeFragger A) × (get_elem? ds i ≡ some d) × (matches addr_port eq d m ≡ true)

  candidates-Takes :
      (all pre ds : List (DeFragger A)) (m : Packet) (i : ℕ)
      → all ≡ pre ++ ds
      → i ≡ length pre
      → All (Takes all m) (candidates addr_port eq room now m i ds)
  unfolding candidates
  candidates-Takes all pre [] m i e k = tt
  candidates-Takes all pre (d ∷ ds) m i e k =
      let rest =
        candidates-Takes all (pre ++ (d ∷ [])) ds m (i + 1) (e ∙ sym (append_assoc pre (d ∷ []) ds))
          (omega (arith, k, length-append pre (d ∷ []))) in
      let zero_off : length pre + 0 ≡ i = omega (arith, k) in
      let at : get_elem? all i ≡ some d =
        ap (λ (l : List (DeFragger A)). get_elem? l i) e
        ∙ ap (get_elem? (pre ++ (d ∷ ds))) (sym zero_off)
        ∙ get_elem?-append_right pre (d ∷ ds) 0 in
      elim (Bool-cases (matches addr_port eq d m)) [
        | inl b ↦ rw b ((d, at, b), rest)
        | inr b ↦ rw b rest
      ]

  feed_at-In :
      (d : DeFragger A) (ds : List (DeFragger A)) (m : Packet) (i j : ℕ)
      → i < length ds
      → i ≢ j
      → get_elem? ds j ≡ some d
      → In d (feed_at addr_port eq room now ds m i).0
  unfolding feed_at
  feed_at-In d ds m i j lt ne h =
      let Keeps : Fed addr_port eq room now → Type 0 = λ r. In d r.0 in
      option_holds Keeps (get_elem? ds i) (j, h)
        λ x.
          if_holds Keeps ((assembled_len x).1 && ltb room (assembled_len x).0) (j, h)
            (option_holds Keeps (feed addr_port x m room now).1
              (In-set d ds i j (feed addr_port x m room now).0 ne h)
              (λ out. In-swap_remove d ds i j lt ne h))

  chosen_lem :
      (d : DeFragger A) (ds : List (DeFragger A)) (m : Packet) (j : ℕ)
      → get_elem? ds j ≡ some d
      → matches addr_port eq d m ≡ false
      → (c : Choice) → Chosen (Takes ds m) c
      → In d
          (elim c as (λ _. Fed addr_port eq room now) [
            | at_index i ↦ feed_at addr_port eq room now ds m i
            | fresh ↦ feed_at addr_port eq room now (ds ++ (new_de_fragger now ∷ [])) m (length ds)
            | dropped ↦ (ds, none, 0)
          ]).0
  chosen_lem d ds m j h other (at_index i) (d', at, taken) =
      feed_at-In d ds m i j (index_lt ds i d' at)
        (λ q. absurd (ground (arith, at, h, taken, other, ap (get_elem? ds) q))) h
  chosen_lem d ds m j h other fresh c =
      let lt : j < length ds = index_lt ds j d h in
      feed_at-In d (ds ++ (new_de_fragger now ∷ [])) m (length ds) j
        (omega (arith, length-append ds (new_de_fragger now ∷ []))) (λ q. omega (arith, q, lt))
        (get_elem?-append_left ds (new_de_fragger now ∷ []) j lt ∙ h)
  chosen_lem d ds m j h other dropped c = (j, h)

  -- A reassembler that a fragment does not match is in the bucket as it was after `feed`, whatever
  -- becomes of the fragment.
  pub feed_isolates :
      (d : DeFragger A) (ds : List (DeFragger A)) (m : Packet)
      → In d ds
      → matches addr_port eq d m ≡ false
      → In d (feed_bucket addr_port eq room now ds (some m)).0
  unfolding feed_bucket feed_packet
  feed_isolates d ds m (j, h) other =
      let Keeps : Fed addr_port eq room now → Type 0 = λ r. In d r.0 in
      let takers =
        choose-Chosen (Takes ds m) ds m (candidates addr_port eq room now m 0 ds)
          (candidates-Takes ds [] ds m 0 refl refl) in
      if_holds Keeps (leb m.frag_total 1 || leb m.frag_total m.frag_id) (j, h)
        (chosen_lem d ds m j h other
          (choose addr_port eq room now ds m (candidates addr_port eq room now m 0 ds)) takers)
