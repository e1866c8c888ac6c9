-- ===== src/Core/Codec/Frame.antt =====
-- `decode` after `encode`, for a cipher whose two directions run in step.
use mathlib.Core.List.{append_assoc}
use librespot.Base.{
  ℕ, ◌+◌, ◌*◌, ◌/◌, ◌%◌, ◌^◌, ◌≤◌, ◌<◌, ◌≡◌, refl, sym, ap, ap₂, ◌∙◌, true, List, [], ◌∷◌, ◌++◌,
  some, le→leb, length, length-append, take-append, drop-append, arith,
}
use librespot.Base.Result.{ok}
use librespot.Core.Codec.{
  Shannon, ApCodec, header, payload, plain_frame, encode, decode_header, decode_payload, decode,
}

-- What the codec relies on of the Shannon crate: decrypting undoes encrypting and leaves the same
-- state, a text may be encrypted in pieces, and a MAC is accepted in the state that made it.
pub record IsStream (cipher : Shannon) : Type 0 where
  pub decrypt_encrypt :
      (s : cipher.State) (xs : List ℕ)
      → cipher.decrypt s (cipher.encrypt s xs).0 ≡ (xs, (cipher.encrypt s xs).1)
  pub encrypt_append :
      (s : cipher.State) (xs ys : List ℕ)
      → cipher.encrypt s (xs ++ ys) ≡ (
        (cipher.encrypt s xs).0 ++ (cipher.encrypt (cipher.encrypt s xs).1 ys).0,
        (cipher.encrypt (cipher.encrypt s xs).1 ys).1,
      )
  pub encrypt_length : (s : cipher.State) (xs : List ℕ) → length (cipher.encrypt s xs).0 ≡ length xs
  pub finish_length : (s : cipher.State) (n : ℕ) → length (cipher.finish s n).0 ≡ n
  pub check_finish :
      (s : cipher.State) (n : ℕ)
      → cipher.check_mac s (cipher.finish s n).0 ≡ (true, (cipher.finish s n).1)

module _ (cipher : Shannon) where
  -- The receiver is between two frames, and its cipher is where the sender's is.
  pub record IsSynced (sender receiver : ApCodec cipher) : Type 0 where
    pub nonces : sender.encode_nonce ≡ receiver.decode_nonce
    pub ciphers : sender.encode_cipher ≡ receiver.decode_cipher
    pub idle : receiver.decode_state ≡ header

module _ (cipher : Shannon) (stream : IsStream cipher) where
  header_bytes : ℕ → ℕ → List ℕ
  header_bytes cmd size = cmd ∷ (size / 2 ^ 8) ∷ (size % 2 ^ 8) ∷ []

  decode_header_lem :
      (d : ApCodec cipher) (s : cipher.State) (cmd size : ℕ) (rest : List ℕ)
      → d.decode_state ≡ header
      → cipher.nonce_u32 d.decode_cipher d.decode_nonce ≡ s
      → decode_header cipher d ((cipher.encrypt s (header_bytes cmd size)).0 ++ rest) ≡ (
        record d {
          decode_nonce = (d.decode_nonce + 1) % 2 ^ 32;
          decode_cipher = (cipher.encrypt s (header_bytes cmd size)).1;
          decode_state = payload cmd size;
        },
        rest,
      )
  unfolding decode_header header_bytes
  decode_header_lem d s cmd size rest idle keyed =
      let long : 3 ≡ length (cipher.encrypt s (header_bytes cmd size)).0 =
        sym (stream.encrypt_length s (header_bytes cmd size)) in
      let bytes = (cipher.encrypt s (header_bytes cmd size)).0 in
      let all : 3 ≤ length (bytes ++ rest) = omega (arith, long, length-append bytes rest) in
      let back : size / 2 ^ 8 * 2 ^ 8 + size % 2 ^ 8 ≡ size = omega arith in
      rw
        (
          idle,
          decode_header,
          le→leb 3 (length (bytes ++ rest)) all,
          take-append 3 bytes rest long,
          drop-append 3 bytes rest long,
          keyed,
          stream.decrypt_encrypt s (header_bytes cmd size),
          back,
        )
        refl

  decode_payload_lem :
      (d : ApCodec cipher) (cmd : ℕ) (data' rest : List ℕ)
      → d.decode_state ≡ payload cmd (length data')
      → let (coded, after) = cipher.encrypt d.decode_cipher data' in
        let (mac, done) = cipher.finish after 4 in
        decode_payload cipher d ((coded ++ mac) ++ rest)
        ≡ (record d { decode_cipher = done; decode_state = header }, rest, ok (some (cmd, data')))
  unfolding decode_payload
  decode_payload_lem d cmd data' rest waits =
      let coded = (cipher.encrypt d.decode_cipher data').0 in
      let after = (cipher.encrypt d.decode_cipher data').1 in
      let mac = (cipher.finish after 4).0 in
      let n : ℕ = length data' in
      let long : n ≡ length coded = sym (stream.encrypt_length d.decode_cipher data') in
      let whole : n + 4 ≡ length (coded ++ mac) =
        omega (arith, length-append coded mac, long, stream.finish_length after 4) in
      let all : n + 4 ≤ length ((coded ++ mac) ++ rest) =
        omega (arith, whole, length-append (coded ++ mac) rest) in
      rw
        (
          waits,
          decode_payload,
          le→leb (n + 4) (length ((coded ++ mac) ++ rest)) all,
          take-append (n + 4) (coded ++ mac) rest whole,
          drop-append (n + 4) (coded ++ mac) rest whole,
          take-append n coded mac long,
          drop-append n coded mac long,
          stream.decrypt_encrypt d.decode_cipher data',
          stream.check_finish after 4,
        )
        refl

  -- The receiver's codec between a header and its payload.
  abbrev waiting : ApCodec cipher → cipher.State → ℕ → ℕ → ApCodec cipher
  waiting d s cmd size = record d {
    decode_nonce = (d.decode_nonce + 1) % 2 ^ 32;
    decode_cipher = (cipher.encrypt s (header_bytes cmd size)).1;
    decode_state = payload cmd size;
  }

  -- The codec of the receiver after a frame.
  abbrev received : ApCodec cipher → ApCodec cipher → ApCodec cipher
  received d c = record d {
    decode_nonce = c.encode_nonce;
    decode_cipher = c.encode_cipher;
    decode_state = header;
  }

  -- What `encode` writes is one frame that `decode` takes off the buffer, leaving what follows: the
  -- command and the payload come back, if the payload's length fits the 16-bit field, and the two
  -- ends are in step again.
  pub decode-encode :
      (c d : ApCodec cipher) (cmd : ℕ) (data' rest : List ℕ)
      → length data' < 2 ^ 16
      → IsSynced cipher c d
      → let (c', frame) = encode cipher c (cmd, data') [] in
        (d' : ApCodec cipher) × (decode cipher d (frame ++ rest)
          ≡ (d', rest, ok (some (cmd, data'))))
        × IsSynced cipher c' d'
  unfolding encode decode plain_frame
  decode-encode c d cmd data' rest small sync = (
    received d (encode cipher c (cmd, data') []).0,
    rw
        (
          plain,
          stream.encrypt_append s (header_bytes cmd n) data',
          append_assoc (coded_header ++ coded) mac rest,
          append_assoc coded_header coded (mac ++ rest),
          ← append_assoc coded mac rest,
          decode_header_lem d s cmd n ((coded ++ mac) ++ rest) sync.idle keyed,
        )
        (decode_payload_lem (waiting d s cmd n) cmd data' rest refl
          ∙ ap
              (λ m. (
                record d { decode_nonce = m; decode_cipher = done; decode_state = header },
                rest,
                ok (some (cmd, data')),
              ))
              (ap (λ (m : ℕ). (m + 1) % 2 ^ 32) (sym sync.nonces))),
    record { nonces = refl; ciphers = refl; idle = refl },
  )
    where
      s : cipher.State
      s = cipher.nonce_u32 c.encode_cipher c.encode_nonce

      n : ℕ
      n = length data'

      coded_header : List ℕ
      coded_header = (cipher.encrypt s (header_bytes cmd n)).0

      after_header : cipher.State
      after_header = (cipher.encrypt s (header_bytes cmd n)).1

      coded : List ℕ
      coded = (cipher.encrypt after_header data').0

      after : cipher.State
      after = (cipher.encrypt after_header data').1

      mac : List ℕ
      mac = (cipher.finish after 4).0

      done : cipher.State
      done = (cipher.finish after 4).1

      keyed : cipher.nonce_u32 d.decode_cipher d.decode_nonce ≡ s
      keyed = ap₂ cipher.nonce_u32 (sym sync.ciphers) (sym sync.nonces)

      small' : n % 2 ^ 16 ≡ n
      small' = omega arith

      plain : plain_frame cipher cmd data' ≡ header_bytes cmd n ++ data'
      plain = unfold header_bytes in rw small' refl
