-- ===== src/Core/Codec/Chunks.antt =====
-- `decode` on a stream: how the bytes are cut into reads does not matter, and a sequence of frames
-- yields the sequence of its packets.
use mathlib.Core.List.{append-nil}
use librespot.Base.{
  ℕ, zero, suc, ◌+◌, ◌%◌, ◌^◌, ◌≤◌, ◌<◌, ◌≡◌, refl, sym, ap, ap₂, ◌∙◌, ◌⊎◌, inl, inr, true, false,
  List, [], ◌∷◌, ◌++◌, Option, none, some, leb, leb→le, le→leb, Bool-cases, map, length,
  length-append, take, drop, take-append_of_le, drop-append_of_le, All, arith,
}
use librespot.Base.Result.{Result, ok}
use librespot.Core.Codec.{
  Shannon, ApCodec, CodecError, DecodeState, header, payload, encode, read_u16, first,
  decode_header, decode_payload, decode, Decoded,
}
use librespot.Core.Codec.Frame.{IsStream, IsSynced, decode-encode}

state_cases : (s : DecodeState) → (s ≡ header) ⊎ ((cmd : ℕ) × (size : ℕ) × (s ≡ payload cmd size))
state_cases header = inl refl
state_cases (payload cmd size) = inr (cmd, size, refl)

module _ (cipher : Shannon) where
  -- A codec that waits for a payload goes straight to the second block.
  decode_waiting :
      (c : ApCodec cipher) (cmd size : ℕ) (buf : List ℕ)
      → c.decode_state ≡ payload cmd size
      → decode cipher c buf ≡ decode_payload cipher c buf
  unfolding decode
  decode_waiting c cmd size buf e =
      ap (λ (r : ApCodec cipher × List ℕ). decode_payload cipher r.0 r.1) same
    where
      same : decode_header cipher c buf ≡ (c, buf)
      same = unfold decode_header in ground arith

  -- The second block leaves everything alone when it returns no packet.
  payload_none :
      (c c' : ApCodec cipher) (cmd size : ℕ) (buf buf' : List ℕ)
      → c.decode_state ≡ payload cmd size
      → decode_payload cipher c buf ≡ (c', buf', ok none)
      → (c ≡ c') × (buf ≡ buf')
  unfolding decode_payload
  payload_none c c' cmd size buf buf' e h = ground arith

  header_short :
      (c : ApCodec cipher) (buf : List ℕ)
      → c.decode_state ≡ header
      → leb 3 (length buf) ≡ false
      → decode cipher c buf ≡ (c, buf, ok none)
  unfolding decode
  header_short c buf e l =
      ap (λ (r : ApCodec cipher × List ℕ). decode_payload cipher r.0 r.1) same ∙ idle
    where
      same : decode_header cipher c buf ≡ (c, buf)
      same = unfold decode_header in ground arith

      idle : decode_payload cipher c buf ≡ (c, buf, ok none)
      idle = unfold decode_payload in ground arith

  -- The codec after a whole header.
  abbrev opened : ApCodec cipher → List ℕ → ApCodec cipher
  opened c buf =
      let (bytes, after) =
        cipher.decrypt (cipher.nonce_u32 c.decode_cipher c.decode_nonce) (take 3 buf) in
      record c {
        decode_nonce = (c.decode_nonce + 1) % 2 ^ 32;
        decode_cipher = after;
        decode_state = payload (first bytes) (read_u16 (drop 1 bytes));
      }

  header_long :
      (c : ApCodec cipher) (buf more : List ℕ)
      → c.decode_state ≡ header
      → leb 3 (length buf) ≡ true
      → decode cipher c (buf ++ more) ≡ decode_payload cipher (opened c buf) (drop 3 buf ++ more)
  unfolding decode
  header_long c buf more e l =
      ap (λ (r : ApCodec cipher × List ℕ). decode_payload cipher r.0 r.1) same
    where
      enough : 3 ≤ length buf
      enough = leb→le 3 (length buf) l

      all : leb 3 (length (buf ++ more)) ≡ true
      all = le→leb 3 (length (buf ++ more)) (omega (arith, enough, length-append buf more))

      same : decode_header cipher c (buf ++ more) ≡ (opened c buf, drop 3 buf ++ more)
      same =
          unfold decode_header in
          (rw
            (
              e,
              decode_header,
              all,
              take-append_of_le 3 buf more enough,
              drop-append_of_le 3 buf more enough,
            )
            refl)

  -- Bytes may arrive in any pieces: where `decode` returns no packet yet, going on with what it
  -- left and the bytes that come next is the same as decoding all the bytes at once.
  pub decode_resumes :
      (c c' : ApCodec cipher) (buf buf' more : List ℕ)
      → decode cipher c buf ≡ (c', buf', ok none)
      → decode cipher c (buf ++ more) ≡ decode cipher c' (buf' ++ more)
  decode_resumes c c' buf buf' more h = elim (state_cases c.decode_state) [
    | inl e ↦ elim (Bool-cases (leb 3 (length buf))) [
      | inl l ↦
          let whole =
            header_long c buf [] e l
            ∙ ap (decode_payload cipher (opened c buf)) (append-nil (drop 3 buf)) in
          let (p, q) =
            payload_none (opened c buf) c' _ _ (drop 3 buf) buf' refl
              (sym whole ∙ ap (decode cipher c) (append-nil buf) ∙ h) in
          header_long c buf more e l
          ∙ sym (decode_waiting (opened c buf) _ _ (drop 3 buf ++ more) refl)
          ∙ ap₂ (λ x y. decode cipher x (y ++ more)) p q
      | inr l ↦
          let idle = sym (header_short c buf e l) ∙ h in
          ap₂ (λ x y. decode cipher x (y ++ more)) (ap (λ (r : Decoded cipher). r.0) idle)
            (ap (λ (r : Decoded cipher). r.1) idle)
    ]
    | inr (cmd, size, e) ↦
        let (p, q) =
          payload_none c c' cmd size buf buf' e (sym (decode_waiting c cmd size buf e) ∙ h) in
        ap₂ (λ x y. decode cipher x (y ++ more)) p q
  ]

-- A sender's whole output, and a receiver that decodes one frame for each packet that it wants.
module _ (cipher : Shannon) where
  pub encode_all : ApCodec cipher → List (ℕ × List ℕ) → List ℕ
  encode_all c [] = []
  encode_all c (item ∷ items) =
      let (c', frame) = encode cipher c item [] in frame ++ encode_all c' items

  pub decode_all : ℕ → ApCodec cipher → List ℕ → List (Result CodecError (Option (ℕ × List ℕ)))
  decode_all zero d buf = []
  decode_all (suc n) d buf =
      let (d', buf', packet) = decode cipher d buf in packet ∷ decode_all n d' buf'

module _ (cipher : Shannon) (stream : IsStream cipher) where
  -- A sequence of packets whose payloads fit their length fields crosses the connection: each comes
  -- out as it went in, in order.
  pub decode_all-encode_all :
      (items : List (ℕ × List ℕ)) (c d : ApCodec cipher)
      → All (λ (item : ℕ × List ℕ). length item.1 < 2 ^ 16) items
      → IsSynced cipher c d
      → decode_all cipher (length items) d (encode_all cipher c items)
        ≡ map (λ item. ok (some item)) items
  unfolding encode_all decode_all
  decode_all-encode_all [] c d h sync = refl
  decode_all-encode_all ((cmd, data') ∷ items) c d h sync =
      let c' = (encode cipher c (cmd, data') []).0 in
      let (d', e, sync') =
        decode-encode cipher stream c d cmd data' (encode_all cipher c' items) h.0 sync in
      rw e (ap (◌∷◌ (ok (some (cmd, data')))) (decode_all-encode_all items c' d' h.1 sync'))
