-- ===== src/Core/Channel/Stream.antt =====
-- The items of a channel's stream, for the packets of a whole transfer.
use librespot.Base.{
  ℕ, zero, suc, ◌+◌, ◌-◌, ◌*◌, ◌/◌, ◌%◌, ◌<◌, ◌≡◌, ◌≢◌, refl, ap, ◌∙◌, Bool, false, List, [], ◌∷◌,
  ◌++◌, map, Option, none, some, ◌==◌, ltb, length, length-append, take-append, drop-append, All,
  arith,
}
use librespot.Base.Result.{ok}
use librespot.Core.Channel.{
  Bytes, Channel, ChannelState, header, data_state, closed, header_event, data_event, ready, Item,
  channel_error_type, recv_packet, data_item, poll_data, read_header, poll_next,
}

-- The headers of a transfer in one packet: the size, the kind and the bytes of each, and a size 0.
unfoldable pub headers_packet : List (ℕ × Bytes) → Bytes
headers_packet [] = 0 ∷ 0 ∷ []
headers_packet ((id, bytes) ∷ headers) =
    let size : ℕ = length bytes + 1 in
    size / 256 ∷ size % 256 ∷ id ∷ (bytes ++ headers_packet headers)

abbrev first_item : Item × Channel → Option (List Item × Channel) → Option (List Item × Channel)
first_item r none = none
first_item r (some (items, c)) = some (r.0 ∷ items, c)

-- The items of a number of polls.
unfoldable pub polls : ℕ → Channel → Option (List Item × Channel)
unfolding poll_next
polls zero c = some ([], c)
polls (suc n) c = elim (poll_next c) [ none ↦ none | some r ↦ first_item r (polls n r.1) ]

abbrev pub data_of : ℕ × Bytes → Item
data_of packet = ready (some (ok (data_event packet.1)))

abbrev pub header_of : ℕ × Bytes → Item
header_of h = ready (some (ok (header_event h.0 h.1)))

-- A packet of data: it is not empty, and it reports no error.
abbrev pub IsData : ℕ × Bytes → Type 0
IsData packet = ((packet.0 == channel_error_type) ≡ false) × (packet.1 ≢ [])

abbrev pub IsHeader : ℕ × Bytes → Type 0
IsHeader h = length h.1 + 1 < 65536

abbrev pub transfer : ChannelState → Bool → List (ℕ × Bytes) → Channel
transfer state has_sender packets = record {
  packets = packets;
  has_sender = has_sender;
  channel_state = state;
}

polls-step :
    (n : ℕ) (c c' : Channel) (item : Item)
    → poll_next c ≡ some (item, c')
    → polls (suc n) c ≡ first_item (item, c') (polls n c')
unfolding polls
polls-step n c c' item e = rw (polls, e) refl

poll_next-data :
    (kind b : ℕ) (bytes : Bytes) (s : Bool) (packets : List (ℕ × Bytes))
    → (kind == channel_error_type) ≡ false
    → poll_next (transfer data_state s ((kind, b ∷ bytes) ∷ packets))
      ≡ some (data_of (kind, b ∷ bytes), transfer data_state s packets)
unfolding poll_next poll_data recv_packet data_item
poll_next-data kind b bytes s packets e = rw (recv_packet, e) refl

poll_next-end :
    (kind : ℕ) (s : Bool) (packets : List (ℕ × Bytes))
    → (kind == channel_error_type) ≡ false
    → poll_next (transfer data_state s ((kind, []) ∷ packets))
      ≡ some (ready none, transfer closed false packets)
unfolding poll_next poll_data recv_packet data_item
poll_next-end kind s packets e = rw (recv_packet, e) refl

poll_next-header :
    (id : ℕ) (bytes more : Bytes) (s : Bool) (packets : List (ℕ × Bytes))
    → length bytes + 1 < 65536
    → poll_next (
        transfer
          (header ((length bytes + 1) / 256 ∷ (length bytes + 1) % 256 ∷ id ∷ (bytes ++ more)))
          s
          packets)
      ≡ some (header_of (id, bytes), transfer (header more) s packets)
unfolding poll_next read_header
poll_next-header id bytes more s packets h =
    let size : (length bytes + 1) / 256 * 256 + (length bytes + 1) % 256 ≡ length bytes + 1 =
      omega arith in
    let some_bytes : (length bytes + 1 == 0) ≡ false = ground arith in
    let one_less : length bytes + 1 - 1 ≡ length bytes = omega arith in
    let enough : ltb (length (bytes ++ more)) (length bytes) ≡ false =
      ground (arith, length-append bytes more) in
    rw
      (
        read_header,
        size,
        some_bytes,
        one_less,
        enough,
        take-append (length bytes) bytes more refl,
        drop-append (length bytes) bytes more refl,
      )
      refl

polls_same :
    (n : ℕ) (c c' : Channel) → poll_next c ≡ poll_next c' → polls (suc n) c ≡ polls (suc n) c'
unfolding polls
polls_same n c c' e = ap (λ r. elim r [ none ↦ none | some r ↦ first_item r (polls n r.1) ]) e

no_header :
    (s : Bool) (packets : List (ℕ × Bytes))
    → poll_next (transfer (header (0 ∷ 0 ∷ [])) s packets)
      ≡ poll_next (transfer data_state s packets)
unfolding poll_next read_header
no_header s packets = refl

first_packet :
    (headers : List (ℕ × Bytes)) (kind : ℕ) (s : Bool) (packets : List (ℕ × Bytes))
    → (kind == channel_error_type) ≡ false
    → poll_next (transfer (header []) s ((kind, headers_packet headers) ∷ packets))
      ≡ poll_next (transfer (header (headers_packet headers)) s packets)
unfolding poll_next recv_packet headers_packet
first_packet [] kind s packets e = rw (recv_packet, e) refl
first_packet ((id, bytes) ∷ headers) kind s packets e = rw (recv_packet, e) refl

polls-data :
    (chunks : List (ℕ × Bytes)) (kind : ℕ) (has_sender : Bool) (rest : List (ℕ × Bytes))
    → All IsData chunks
    → (kind == channel_error_type) ≡ false
    → polls (suc (length chunks)) (transfer data_state has_sender (chunks ++ (kind, []) ∷ rest))
      ≡ some (map data_of chunks ++ ready none ∷ [], transfer closed false rest)
unfolding polls
polls-data [] kind has_sender rest h k =
    polls-step 0 (transfer data_state has_sender ((kind, []) ∷ rest)) (transfer closed false rest)
      (ready none) (poll_next-end kind has_sender rest k)
polls-data ((kind', []) ∷ chunks) kind has_sender rest ((e, n), hs) k = absurd (n refl)
polls-data ((kind', b ∷ bytes) ∷ chunks) kind has_sender rest ((e, n), hs) k =
    let packets = chunks ++ (kind, []) ∷ rest in
    let item = data_of (kind', b ∷ bytes) in
    polls-step (suc (length chunks)) (transfer data_state has_sender ((kind', b ∷ bytes) ∷ packets))
      (transfer data_state has_sender packets) item
      (poll_next-data kind' b bytes has_sender packets e)
    ∙ ap (first_item (item, transfer data_state has_sender packets))
        (polls-data chunks kind has_sender rest hs k)

polls-header :
    (headers chunks : List (ℕ × Bytes)) (kind : ℕ) (has_sender : Bool) (rest : List (ℕ × Bytes))
    → All IsHeader headers
    → All IsData chunks
    → (kind == channel_error_type) ≡ false
    → polls
        (length headers + suc (length chunks))
        (transfer (header (headers_packet headers)) has_sender (chunks ++ (kind, []) ∷ rest))
      ≡ some (
        map header_of headers ++ map data_of chunks ++ ready none ∷ [],
        transfer closed false rest,
      )
unfolding headers_packet
polls-header [] chunks kind has_sender rest h d k =
    let packets = chunks ++ (kind, []) ∷ rest in
    ap (λ n. polls n (transfer (header (0 ∷ 0 ∷ [])) has_sender packets)) (omega arith)
    ∙ polls_same (length chunks) (transfer (header (0 ∷ 0 ∷ [])) has_sender packets)
        (transfer data_state has_sender packets) (no_header has_sender packets)
    ∙ polls-data chunks kind has_sender rest d k
polls-header ((id, bytes) ∷ headers) chunks kind has_sender rest (h, hs) d k =
    let packets = chunks ++ (kind, []) ∷ rest in
    let more = headers_packet headers in
    let start =
      header ((length bytes + 1) / 256 ∷ (length bytes + 1) % 256 ∷ id ∷ (bytes ++ more)) in
    let next = transfer (header more) has_sender packets in
    ap (λ n. polls n (transfer start has_sender packets)) (omega arith)
    ∙ polls-step (length headers + suc (length chunks)) (transfer start has_sender packets) next
        (header_of (id, bytes)) (poll_next-header id bytes more has_sender packets h)
    ∙ ap (first_item (header_of (id, bytes), next))
        (polls-header headers chunks kind has_sender rest hs d k)

-- A transfer of headers in one packet, of packets of data and of an empty packet is read without a
-- panic: the polls give the headers in their order, then the data of each packet, and then the end;
-- the channel is closed, and packets behind the empty one stay.
pub polls_lem :
    (headers chunks : List (ℕ × Bytes)) (kind kind' : ℕ) (has_sender : Bool)
    (rest : List (ℕ × Bytes))
    → All IsHeader headers
    → All IsData chunks
    → (kind == channel_error_type) ≡ false
    → (kind' == channel_error_type) ≡ false
    → polls (length headers + suc (length chunks)) (
        transfer
          (header [])
          has_sender
          ((kind', headers_packet headers) ∷ chunks ++ (kind, []) ∷ rest))
      ≡ some (
        map header_of headers ++ map data_of chunks ++ ready none ∷ [],
        transfer closed false rest,
      )
polls_lem headers chunks kind kind' has_sender rest h d k k' =
    let packets = chunks ++ (kind, []) ∷ rest in
    let first = transfer (header []) has_sender ((kind', headers_packet headers) ∷ packets) in
    let reading = transfer (header (headers_packet headers)) has_sender packets in
    let n = length headers + length chunks in
    ap (λ n. polls n first) (omega arith)
    ∙ polls_same n first reading (first_packet headers kind' has_sender packets k')
    ∙ ap (λ n. polls n reading) (omega arith)
    ∙ polls-header headers chunks kind has_sender rest h d k
