-- ===== src/Core/Codec.antt =====
-- core/src/connection/codec.rs: the frames of the access point connection, a tokio `Encoder` and
-- `Decoder`. The `BytesMut` buffer is a list of bytes that is passed on. The Shannon stream cipher
-- is another crate: the record `Shannon` stands for it.
pub mod Frame
pub mod Chunks
mod Examples
use librespot.Base.{
  ℕ, zero, suc, ◌+◌, ◌*◌, ◌/◌, ◌%◌, ◌^◌, ◌≡◌, Bool, List, [], ◌∷◌, ◌++◌, Option, none, some, leb,
  ◌==◌, if◌then◌else◌, length, take, drop,
}
use librespot.Base.Result.{Result, ok, err}

-- A cipher state is changed in place by each call: a call returns the state that it leaves.
pub record Shannon : Type 1 where
  pub State : Type 0
  pub start : List ℕ → State
  pub nonce_u32 : State → ℕ → State
  pub encrypt : State → List ℕ → List ℕ × State
  pub decrypt : State → List ℕ → List ℕ × State
  pub finish : State → ℕ → List ℕ × State
  pub check_mac : State → List ℕ → Bool × State

abbrev pub header_size : ℕ
header_size = 3

abbrev pub mac_size : ℕ
mac_size = 4

-- `io::Error` with `ApCodecError::Payload`, and the failure of `check_mac`.
pub data CodecError : Type 0 where
  payload_error mac_error : CodecError

pub data DecodeState : Type 0 where
  header : DecodeState
  payload : ℕ → ℕ → DecodeState

-- `BigEndian::read_u16`.
abbrev pub read_u16 : List ℕ → ℕ
read_u16 (a ∷ b ∷ rest) = a * 2 ^ 8 + b
read_u16 _ = 0

abbrev pub first : List ℕ → ℕ
first [] = 0
first (b ∷ bs) = b

module _ (cipher : Shannon) where
  pub record ApCodec : Type 0 where
    pub encode_nonce : ℕ
    pub encode_cipher : cipher.State
    pub decode_nonce : ℕ
    pub decode_cipher : cipher.State
    pub decode_state : DecodeState

module _ (cipher : Shannon) where
  unfoldable pub new : List ℕ → List ℕ → ApCodec cipher
  new send_key recv_key = record {
    encode_nonce = 0;
    encode_cipher = cipher.start send_key;
    decode_nonce = 0;
    decode_cipher = cipher.start recv_key;
    decode_state = header;
  }

  -- The bytes that `put_u8`, `put_u16` and `extend_from_slice` append; the length is cast to `u16`.
  unfoldable pub plain_frame : ℕ → List ℕ → List ℕ
  plain_frame cmd data' =
      let size : ℕ = length data' % 2 ^ 16 in cmd ∷ (size / 2 ^ 8) ∷ (size % 2 ^ 8) ∷ data'

  -- `encode` always succeeds.
  unfoldable pub encode : ApCodec cipher → ℕ × List ℕ → List ℕ → ApCodec cipher × List ℕ
  unfolding plain_frame
  encode c (cmd, data') buf =
      let keyed = cipher.nonce_u32 c.encode_cipher c.encode_nonce in
      let (frame, after) = cipher.encrypt keyed (plain_frame cmd data') in
      let (mac, done) = cipher.finish after mac_size in
      (
        record c { encode_nonce = (c.encode_nonce + 1) % 2 ^ 32; encode_cipher = done },
        buf ++ (frame ++ mac),
      )

  -- The first block of `decode`: a header that has arrived is decrypted and taken off the buffer.
  unfoldable pub decode_header : ApCodec cipher → List ℕ → ApCodec cipher × List ℕ
  decode_header c buf = elim c.decode_state [
    | header ↦
        if leb header_size (length buf)
        then (let keyed = cipher.nonce_u32 c.decode_cipher c.decode_nonce in
            let (bytes, after) = cipher.decrypt keyed (take header_size buf) in
            (
              record c {
                decode_nonce = (c.decode_nonce + 1) % 2 ^ 32;
                decode_cipher = after;
                decode_state = payload (first bytes) (read_u16 (drop 1 bytes));
              },
              drop header_size buf,
            ))
        else (c, buf)
    | payload cmd size ↦ (c, buf)
  ]

  -- What `decode` returns: the codec and the buffer that it leaves, and its result.
  abbrev pub Decoded : Type 0
  Decoded = ApCodec cipher × List ℕ × Result CodecError (Option (ℕ × List ℕ))

  -- The second block: a payload and its MAC that have arrived are taken off, decrypted and checked.
  unfoldable pub decode_payload : ApCodec cipher → List ℕ → Decoded
  decode_payload c buf = elim c.decode_state [
    | header ↦ (c, buf, ok none)
    | payload cmd size ↦
        if leb (size + mac_size) (length buf)
        then (let frame = take (size + mac_size) buf in
            let (plain, after) = cipher.decrypt c.decode_cipher (take size frame) in
            let (good, done) = cipher.check_mac after (drop size frame) in
            (
              record c { decode_cipher = done; decode_state = header },
              drop (size + mac_size) buf,
              if good then ok (some (cmd, plain)) else err mac_error,
            ))
        else (c, buf, ok none)
  ]

  unfoldable pub decode : ApCodec cipher → List ℕ → Decoded
  unfolding decode_header decode_payload
  decode c buf = let (c', buf') = decode_header c buf in decode_payload c' buf'
