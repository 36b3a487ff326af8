-- ===== src/Hysteria2/Tcp/Laws.antt =====
-- What the writers of proxy.go lay out, its readers read back.
use outbound.Prelude.{ltb, ◌==◌, if◌then◌else◌, length, length-append, take_all, ℕ, ◌+◌, ◌-◌, ◌≤◌}
use outbound.Prelude.{◌<◌, ◌≡◌, refl, ap, ◌∙◌, Bool, true, false, ◌||◌, Option, some, [], ◌∷◌}
use outbound.Prelude.{◌++◌, append-nil, append_assoc, arith}
use outbound.Wire.{Bytes, read_full-append}
use outbound.Hysteria2.Message.{max_message_length, varint_put}
use outbound.Hysteria2.Tcp.{frame_type_tcp_request, max_address_length, max_padding_length}
use outbound.Hysteria2.Tcp.Write.{put_varint, put_copy, put_padding, write_tcp_request}
use outbound.Hysteria2.Tcp.Write.{write_tcp_response}
use outbound.Hysteria2.Tcp.Read.{done, read_bytes, read_varint, skip_padding, read_tcp_request}
use outbound.Hysteria2.Tcp.Read.{read_tcp_response}

module _ (varint_len : ℕ → ℕ) (varint_read : Bytes → Option (ℕ × Bytes)) where
  -- `varintPut` writes `i`, in as many bytes as `Len` says, and `Read` reads it back.
  abbrev pub Agrees : ℕ → Type 0
  Agrees i =
      (v : Bytes) × (varint_put i ≡ some v)
      × (length v ≡ varint_len i)
      × ((r : Bytes) → varint_read (v ++ r) ≡ some (i, r))

  put_varint_lem :
      (room i : ℕ) (w v : Bytes)
      → varint_put i ≡ some v
      → length w + length v ≤ room
      → put_varint room w i ≡ some (w ++ v)
  unfolding put_varint
  put_varint_lem room i w v e h =
      let fits : ltb room (length w + length v) ≡ false = ground (arith, h) in
      rw (put_varint, e, fits) refl

  put_copy_lem :
      (room : ℕ) (w xs : Bytes) → length w + length xs ≤ room → put_copy room w xs ≡ w ++ xs
  unfolding put_copy
  put_copy_lem room w xs h = ap (λ t. w ++ t) (take_all (room - length w) xs (omega (arith, h)))

  put_padding_lem :
      (room : ℕ) (w xs : Bytes)
      → length w + length xs ≡ room
      → put_padding room w xs ≡ some (w ++ xs)
  unfolding put_padding
  put_padding_lem room w xs h =
      let fits : ltb room (length w + length xs) ≡ false = ground (arith, h) in
      let none_left : room - (length w + length xs) ≡ 0 = omega (arith, h) in
      rw (fits, none_left) (ap some (append-nil (w ++ xs)))

  reassociate :
      (w v xs u padding : Bytes)
      → (((w ++ v) ++ xs) ++ u) ++ padding ≡ w ++ (v ++ (xs ++ (u ++ padding)))
  reassociate w v xs u padding = simp (append_assoc)

  -- The bytes of a field: its length and the field itself, with the padding behind it.
  abbrev tail_bytes : Bytes → Bytes → Bytes → Bytes → Bytes
  tail_bytes v xs u padding = v ++ (xs ++ (u ++ padding))

  -- What both writers do behind their first bytes `w`: a field, its length in front, and padding.
  put_field_lem :
      (room : ℕ) (w xs padding : Bytes) (a : Agrees (length xs)) (b : Agrees (length padding))
      → room
        ≡ length w
          + (varint_len (length xs) + (length xs + (varint_len (length padding) + length padding)))
      → (put_varint room w (length xs) ≡ some (w ++ a.0))
        × (put_varint room (put_copy room (w ++ a.0) xs) (length padding)
            ≡ some (((w ++ a.0) ++ xs) ++ b.0))
        × (put_padding room (((w ++ a.0) ++ xs) ++ b.0) padding
            ≡ some (w ++ tail_bytes a.0 xs b.0 padding))
  put_field_lem room w xs padding (v, put, size, reads) (u, put', size', reads') h =
      let one = length-append w v in
      let two = length-append (w ++ v) xs in
      let three = length-append ((w ++ v) ++ xs) u in
      (
        put_varint_lem room (length xs) w v put (omega (arith, h, size)),
        ap (λ t. put_varint room t (length padding))
              (put_copy_lem room (w ++ v) xs (omega (arith, h, size, one)))
            ∙ put_varint_lem room (length padding) ((w ++ v) ++ xs) u put'
                (omega (arith, h, size, size', one, two)),
        put_padding_lem room (((w ++ v) ++ xs) ++ u) padding
              (omega (arith, h, size, size', one, two, three))
            ∙ ap some (reassociate w v xs u padding),
      )

  read_padding :
      {A : Type 0} (a : A) (padding rest : Bytes) (b : Agrees (length padding))
      → length padding ≤ 4096
      → skip_padding varint_read a (b.0 ++ (padding ++ rest)) ≡ done a rest
  unfolding skip_padding read_varint read_bytes
  read_padding a padding rest (u, put, size, reads) h =
      let fits : ltb max_padding_length (length padding) ≡ false = ground (arith, h) in
      rw
        (
          skip_padding,
          read_varint,
          reads (padding ++ rest),
          fits,
          read_bytes,
          read_full-append (length padding) padding rest refl,
        )
        refl

  reassociate_tail :
      (v xs u padding rest : Bytes)
      → (v ++ (xs ++ (u ++ padding))) ++ rest ≡ v ++ (xs ++ (u ++ (padding ++ rest)))
  reassociate_tail v xs u padding rest = simp (append_assoc)

  -- `Len` and `Read` agree with `varintPut` on the frame type and on the two lengths, the address
  -- has 1 to 2048 bytes and the padding at most 4096: `WriteTCPRequest` does not panic, and on what
  -- it writes the frame type is read, and then `ReadTCPRequest` reads the address, up to whatever
  -- follows.
  pub read-write_tcp_request :
      (addr padding rest : Bytes) (f : Agrees frame_type_tcp_request) (a : Agrees (length addr))
      (b : Agrees (length padding))
      → 0 < length addr
      → length addr ≤ 2048
      → length padding ≤ 4096
      → (bytes : Bytes) × (write_tcp_request varint_len padding addr ≡ some bytes)
        × (body : Bytes) × (varint_read (bytes ++ rest) ≡ some (frame_type_tcp_request, body))
        × (read_tcp_request varint_read body ≡ done addr rest)
  unfolding write_tcp_request read_tcp_request read_varint read_bytes
  read-write_tcp_request addr padding rest (t, put, size, reads) (v, put', size', reads') b lo hi
        h =
      let tail = v ++ (addr ++ (b.0 ++ padding)) in
      let body = v ++ (addr ++ (b.0 ++ (padding ++ rest))) in
      let room =
        varint_len frame_type_tcp_request
        + (varint_len (length addr)
            + (length addr + (varint_len (length padding) + length padding))) in
      let fields =
        put_field_lem room t addr padding (v, put', size', reads') b (omega (arith, size)) in
      let first = put_varint_lem room frame_type_tcp_request [] t put (omega (arith, size)) in
      let carried : (length addr == 0 || ltb max_address_length (length addr)) ≡ false =
        ground (arith, lo, hi) in
      (
        t ++ tail,
        rw (write_tcp_request, first, fields.0, fields.1) fields.2,
        body,
        ap varint_read (
              append_assoc t tail rest
              ∙ ap (λ x. t ++ x) (reassociate_tail v addr b.0 padding rest))
            ∙ reads body,
        rw
            (
              read_tcp_request,
              read_varint,
              reads' (addr ++ (b.0 ++ (padding ++ rest))),
              carried,
              read_bytes,
              read_full-append (length addr) addr (b.0 ++ (padding ++ rest)) refl,
            )
            (read_padding addr padding rest b h),
      )

  status_byte : Bool → ℕ
  status_byte ok = if ok then 0 else 1

  read_status : (ok : Bool) → (status_byte ok == 0) ≡ ok
  unfolding status_byte
  read_status true = refl
  read_status false = refl

  -- `Len` and `Read` agree with `varintPut` on the two lengths, the message has at most 2048 bytes
  -- and the padding at most 4096: `WriteTCPResponse` does not panic, and on what it writes
  -- `ReadTCPResponse` reads the status and the message, up to whatever follows.
  pub read-write_tcp_response :
      (ok : Bool) (msg padding rest : Bytes) (a : Agrees (length msg)) (b : Agrees (length padding))
      → length msg ≤ 2048
      → length padding ≤ 4096
      → (bytes : Bytes) × (write_tcp_response varint_len padding ok msg ≡ some bytes)
        × (read_tcp_response varint_read (bytes ++ rest) ≡ done (ok, msg) rest)
  unfolding write_tcp_response read_tcp_response read_varint read_bytes status_byte
  read-write_tcp_response ok msg padding rest (v, put, size, reads) b hi h =
      let tail = v ++ (msg ++ (b.0 ++ padding)) in
      let w : Bytes = status_byte ok ∷ [] in
      let room =
        1
        + (varint_len (length msg)
            + (length msg + (varint_len (length padding) + length padding))) in
      let fields = put_field_lem room w msg padding (v, put, size, reads) b (omega arith) in
      let carried : ltb max_message_length (length msg) ≡ false = ground (arith, hi) in
      let first = read_full-append 1 w (tail ++ rest) refl in
      (
        status_byte ok ∷ tail,
        rw (write_tcp_response, fields.0, fields.1) fields.2,
        rw
            (
              read_tcp_response,
              read_bytes,
              first,
              reassociate_tail v msg b.0 padding rest,
              read_varint,
              reads (msg ++ (b.0 ++ (padding ++ rest))),
              carried,
              read_full-append (length msg) msg (b.0 ++ (padding ++ rest)) refl,
              read_status ok,
            )
            (read_padding (ok, msg) padding rest b h),
      )
