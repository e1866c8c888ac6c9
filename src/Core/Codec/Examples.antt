-- ===== src/Core/Codec/Examples.antt =====
-- The codec theorems for a toy cipher that adds the nonce to every byte.
use librespot.Base.{
  ℕ, ◌+◌, ◌-◌, ◌≡◌, refl, ap, ap₂, true, List, [], ◌∷◌, ◌++◌, none, some, map, length, length-map,
  length-replicate, replicate, arith,
}
use librespot.Base.Text.{text_eq, text_eq_refl}
use librespot.Base.Result.{ok}
use librespot.Core.Codec.{Shannon, ApCodec, header, payload, encode, decode}
use librespot.Core.Codec.Frame.{IsStream, IsSynced, decode-encode}
use librespot.Core.Codec.Chunks.{decode_resumes, decode_all-encode_all, encode_all, decode_all}

abbrev shift_cipher : Shannon
shift_cipher = record {
  State = ℕ;
  start = λ key. length key;
  nonce_u32 = λ s n. n + 1;
  encrypt = λ s xs. (map (λ b. b + s) xs, s);
  decrypt = λ s xs. (map (λ b. b - s) xs, s);
  finish = λ s n. (replicate n s, s);
  check_mac = λ s mac. (text_eq mac (replicate (length mac) s), s);
}

unshift : (s : ℕ) (xs : List ℕ) → map (λ b. b - s) (map (λ b. b + s) xs) ≡ xs
unshift s [] = refl
unshift s (x ∷ xs) = ap₂ ◌∷◌ (omega arith) (unshift s xs)

shift-append :
    (s : ℕ) (xs ys : List ℕ)
    → map (λ b. b + s) (xs ++ ys) ≡ map (λ b. b + s) xs ++ map (λ b. b + s) ys
shift-append s [] ys = refl
shift-append s (x ∷ xs) ys = ap (◌∷◌ (x + s)) (shift-append s xs ys)

check_replicate : (s n : ℕ) → text_eq (replicate n s) (replicate (length (replicate n s)) s) ≡ true
check_replicate s n = rw (length-replicate n s) (text_eq_refl (replicate n s))

shift_cipher-IsStream : IsStream shift_cipher
shift_cipher-IsStream = record {
  decrypt_encrypt = λ s xs. ap (λ m. (m, s)) (unshift s xs);
  encrypt_append = λ s xs ys. ap (λ m. (m, s)) (shift-append s xs ys);
  encrypt_length = λ s xs. length-map (λ b. b + s) xs;
  finish_length = λ s n. length-replicate n s;
  check_finish = λ s n. ap (λ m. (m, s)) (check_replicate s n);
}

abbrev fresh : ApCodec shift_cipher
fresh = record {
  encode_nonce = 0;
  encode_cipher = 0;
  decode_nonce = 0;
  decode_cipher = 0;
  decode_state = header;
}

fresh-IsSynced : IsSynced shift_cipher fresh fresh
fresh-IsSynced = record { nonces = refl; ciphers = refl; idle = refl }

-- The frame of command 4 with two bytes, under nonce 0.
encode_runs :
    (encode shift_cipher fresh (4, 9 ∷ 8 ∷ []) []).1 ≡ 5 ∷ 1 ∷ 3 ∷ 10 ∷ 9 ∷ 1 ∷ 1 ∷ 1 ∷ 1 ∷ []
unfolding encode
encode_runs = refl

decode-encode_example :
    (d' : ApCodec shift_cipher) × (decode shift_cipher fresh
        ((encode shift_cipher fresh (4, 9 ∷ 8 ∷ []) []).1 ++ (7 ∷ []))
      ≡ (d', 7 ∷ [], ok (some (4, 9 ∷ 8 ∷ []))))
    × IsSynced shift_cipher (encode shift_cipher fresh (4, 9 ∷ 8 ∷ []) []).0 d'
decode-encode_example =
    decode-encode shift_cipher shift_cipher-IsStream fresh fresh 4 (9 ∷ 8 ∷ []) (7 ∷ [])
      (omega arith) fresh-IsSynced

-- The header of a frame whose payload is still to come.
abbrev half_open : ApCodec shift_cipher
half_open = record fresh { decode_nonce = 1; decode_cipher = 1; decode_state = payload 4 2 }

half_read : decode shift_cipher fresh (5 ∷ 1 ∷ 3 ∷ 10 ∷ []) ≡ (half_open, 10 ∷ [], ok none)
unfolding decode
half_read = refl

decode_resumes_example :
    decode shift_cipher fresh ((5 ∷ 1 ∷ 3 ∷ 10 ∷ []) ++ (9 ∷ 1 ∷ 1 ∷ 1 ∷ 1 ∷ []))
    ≡ decode shift_cipher half_open ((10 ∷ []) ++ (9 ∷ 1 ∷ 1 ∷ 1 ∷ 1 ∷ []))
decode_resumes_example =
    decode_resumes shift_cipher fresh half_open (5 ∷ 1 ∷ 3 ∷ 10 ∷ []) (10 ∷ [])
      (9 ∷ 1 ∷ 1 ∷ 1 ∷ 1 ∷ []) half_read

abbrev packets : List (ℕ × List ℕ)
packets = (4, 9 ∷ 8 ∷ []) ∷ (73, []) ∷ []

decode_all-encode_all_example :
    decode_all shift_cipher 2 fresh (encode_all shift_cipher fresh packets)
    ≡ map (λ item. ok (some item)) packets
decode_all-encode_all_example =
    decode_all-encode_all shift_cipher shift_cipher-IsStream packets fresh fresh (omega arith)
      fresh-IsSynced
