-- ===== src/Core/SpotifyUri/RoundTrip.antt =====
-- `from_uri` after `to_uri`.
use librespot.Base.{ℕ, ◌^◌, ◌<◌, ◌≡◌, refl, ◌∙◌, false, [], ◌∷◌, ◌++◌, none, some, arith}
use librespot.Base.Result.{ok}
use librespot.Base.Text.{Text, codes, text_eq, IsFree, split_free, split_at}
use librespot.Core.SpotifyId.{SpotifyId, from_base62, to_base62, u128_mod}
use librespot.Core.SpotifyId.RoundTrip.{from_base62-to_base62}
use librespot.Core.SpotifyUri.{
  SpotifyUri, album, artist, episode, playlist, show, track, local, unknown, colon, format_u64,
  or_panic, base62_id, parse_local, parse_item, parse_type, from_parts, from_uri, to_uri,
}
use librespot.Core.SpotifyUri.Parts.{u64_from_str-format_u64, from_base62-IsFree}

-- A URI whose printed parts can be told apart: its texts hold no colon, and its numbers are in range.
abbrev pub IsPrintable : SpotifyUri → Type 0
IsPrintable (album id) = id.id < u128_mod
IsPrintable (artist id) = id.id < u128_mod
IsPrintable (episode id) = id.id < u128_mod
IsPrintable (playlist none id) = id.id < u128_mod
IsPrintable (playlist (some user) id) = IsFree colon user × (id.id < u128_mod)
IsPrintable (show id) = id.id < u128_mod
IsPrintable (track id) = id.id < u128_mod
IsPrintable (local a b c seconds) =
    IsFree colon a × IsFree colon b × IsFree colon c × (seconds < 2 ^ 64)
IsPrintable (unknown kind id) = IsFree colon id

-- The kind of an unknown item is printed as `unknown`; all else is kept.
abbrev pub kept : SpotifyUri → SpotifyUri
kept (unknown kind id) = unknown (codes "unknown") id
kept u = u

-- The common form `spotify:{type}:{id}`.
from_uri_plain :
    (item name : Text)
    → IsFree colon item
    → IsFree colon name
    → text_eq item (codes "user") ≡ false
    → from_uri (codes "spotify:" ++ (item ++ colon ∷ name)) ≡ parse_item none item name []
unfolding from_uri from_parts parse_type
from_uri_plain item name h k n =
    rw
      (
        split_at colon (codes "spotify") (item ++ colon ∷ name) (ground arith),
        split_at colon item name h,
        split_free colon name k,
        n,
      )
      refl

printed_id :
    (item : Text) (id : SpotifyId) (u : SpotifyUri)
    → IsFree colon item
    → text_eq item (codes "user") ≡ false
    → id.id < u128_mod
    → to_uri u ≡ or_panic (to_base62 id) (λ name. some (codes "spotify:" ++ (item ++ colon ∷ name)))
    → ((name : Text) → from_base62 name ≡ ok id → parse_item none item name [] ≡ ok u)
    → (src : Text) × (to_uri u ≡ some src) × (from_uri src ≡ ok u)
printed_id item id u h n b e p =
    let (name, q, l, r) = from_base62-to_base62 id b in
    (
      codes "spotify:" ++ (item ++ colon ∷ name),
      rw (e, q) refl,
      from_uri_plain item name h (from_base62-IsFree name id r) n ∙ p name r,
    )

base62_id_ok : (name : Text) (id : SpotifyId) → from_base62 name ≡ ok id → base62_id name ≡ ok id
unfolding base62_id
base62_id_ok name id r = ground arith

-- The named form `spotify:user:{user}:{type}:{id}`.
from_uri_named :
    (user item name : Text)
    → IsFree colon user
    → IsFree colon item
    → IsFree colon name
    → from_uri (codes "spotify:user:" ++ (user ++ colon ∷ (item ++ colon ∷ name)))
      ≡ parse_item (some user) item name []
unfolding from_uri from_parts parse_type
from_uri_named user item name u h k =
    rw
      (
        split_at colon (codes "spotify") (codes "user:" ++ (user ++ colon ∷ (item ++ colon ∷ name)))
            (omega arith),
        split_at colon (codes "user") (user ++ colon ∷ (item ++ colon ∷ name)) (omega arith),
        split_at colon user (item ++ colon ∷ name) u,
        split_at colon item name h,
        split_free colon name k,
      )
      refl

-- The form of a local file.
from_uri_local :
    (a b c : Text) (seconds : ℕ)
    → IsPrintable (local a b c seconds)
    → from_uri (
        codes "spotify:"
        ++ (codes "local"
            ++ colon ∷ (a ++ colon ∷ (b ++ colon ∷ (c ++ colon ∷ format_u64 seconds)))))
      ≡ ok (local a b c seconds)
unfolding from_uri from_parts parse_type parse_item parse_local
from_uri_local a b c seconds h =
    let (free, back) = u64_from_str-format_u64 seconds h.3 in
    rw
      (
        split_at colon (codes "spotify")
            (codes "local:" ++ (a ++ colon ∷ (b ++ colon ∷ (c ++ colon ∷ format_u64 seconds))))
            (omega arith),
        split_at colon (codes "local")
            (a ++ colon ∷ (b ++ colon ∷ (c ++ colon ∷ format_u64 seconds))) (omega arith),
        split_at colon a (b ++ colon ∷ (c ++ colon ∷ format_u64 seconds)) h.0,
        split_at colon b (c ++ colon ∷ format_u64 seconds) h.1,
        split_at colon c (format_u64 seconds) h.2,
        split_free colon (format_u64 seconds) free,
        back,
      )
      refl

-- Every printable URI is printed without a panic, and parsing the text gives it back, but that the
-- kind of an unknown item becomes `unknown`.
pub from_uri-to_uri :
    (u : SpotifyUri)
    → IsPrintable u
    → (src : Text) × (to_uri u ≡ some src) × (from_uri src ≡ ok (kept u))
from_uri-to_uri (album id) h =
    printed_id (codes "album") id (album id) (omega arith) refl h (unfold to_uri in refl)
      (λ name r. unfold parse_item in rw (base62_id_ok name id r) refl)
from_uri-to_uri (artist id) h =
    printed_id (codes "artist") id (artist id) (omega arith) refl h (unfold to_uri in refl)
      (λ name r. unfold parse_item in rw (base62_id_ok name id r) refl)
from_uri-to_uri (episode id) h =
    printed_id (codes "episode") id (episode id) (omega arith) refl h (unfold to_uri in refl)
      (λ name r. unfold parse_item in rw (base62_id_ok name id r) refl)
from_uri-to_uri (playlist none id) h =
    printed_id (codes "playlist") id (playlist none id) (omega arith) refl h (unfold to_uri in refl)
      (λ name r. unfold parse_item in rw (base62_id_ok name id r) refl)
from_uri-to_uri (playlist (some user) id) h =
    let (name, q, l, r) = from_base62-to_base62 id h.1 in
    (
      codes "spotify:user:" ++ (user ++ colon ∷ (codes "playlist" ++ colon ∷ name)),
      (unfold to_uri in rw q refl),
      from_uri_named user (codes "playlist") name h.0 (omega arith) (from_base62-IsFree name id r)
          ∙ (unfold parse_item in rw (base62_id_ok name id r) refl),
    )
from_uri-to_uri (show id) h =
    printed_id (codes "show") id (show id) (omega arith) refl h (unfold to_uri in refl)
      (λ name r. unfold parse_item in rw (base62_id_ok name id r) refl)
from_uri-to_uri (track id) h =
    printed_id (codes "track") id (track id) (omega arith) refl h (unfold to_uri in refl)
      (λ name r. unfold parse_item in rw (base62_id_ok name id r) refl)
from_uri-to_uri (local a b c seconds) h = (
  codes "spotify:"
      ++ (codes "local" ++ colon ∷ (a ++ colon ∷ (b ++ colon ∷ (c ++ colon ∷ format_u64 seconds)))),
  (unfold to_uri in refl),
  from_uri_local a b c seconds h,
)
from_uri-to_uri (unknown kind id) h = (
  codes "spotify:" ++ (codes "unknown" ++ colon ∷ id),
  (unfold to_uri in refl),
  from_uri_plain (codes "unknown") id (omega arith) h refl ∙ (unfold parse_item in refl),
)
