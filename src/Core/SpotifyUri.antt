-- ===== src/Core/SpotifyUri.antt =====
-- core/src/spotify_uri.rs: Spotify URIs, parsed and printed. Texts are lists of bytes; a duration is
-- its whole seconds. The conversions from protobuf messages are left out.
pub mod Parts
pub mod RoundTrip
mod Examples
use mathlib.Core.List.{reverse}
use librespot.Base.{
  ℕ, zero, suc, ◌+◌, ◌-◌, ◌*◌, ◌/◌, ◌%◌, ◌^◌, Bool, true, false, List, [], ◌∷◌, ◌++◌, Option, none,
  some, ◌&&◌, ltb, leb, ◌==◌, if◌then◌else◌,
}
use librespot.Base.Result.{Result, ok, err, ◌>>=◌, ok_or}
use librespot.Base.Text.{Text, codes, text_eq, split}
use librespot.Core.SpotifyId.{SpotifyId, SpotifyIdError, from_base62, to_base62}

pub data SpotifyUriError : Type 0 where
  invalid_format invalid_root : SpotifyUriError
  id_error : SpotifyIdError → SpotifyUriError

pub data SpotifyUri : Type 0 where
  album : SpotifyId → SpotifyUri
  artist : SpotifyId → SpotifyUri
  episode : SpotifyId → SpotifyUri
  playlist : Option Text → SpotifyId → SpotifyUri
  show : SpotifyId → SpotifyUri
  track : SpotifyId → SpotifyUri
  local : Text → Text → Text → ℕ → SpotifyUri
  unknown : Text → Text → SpotifyUri

abbrev pub SpotifyUriResult : Type 0
SpotifyUriResult = Result SpotifyUriError SpotifyUri

unfoldable pub is_playable : SpotifyUri → Bool
is_playable (episode id) = true
is_playable (track id) = true
is_playable (local a b c d) = true
is_playable _ = false

unfoldable pub item_type : SpotifyUri → Text
item_type (album id) = codes "album"
item_type (artist id) = codes "artist"
item_type (episode id) = codes "episode"
item_type (playlist user id) = codes "playlist"
item_type (show id) = codes "show"
item_type (track id) = codes "track"
item_type (local a b c d) = codes "local"
item_type (unknown kind id) = codes "unknown"

-- `u64` in decimal: the digits of `n`, greatest first. A `u64` has at most 20.
unfoldable pub decimal : ℕ → ℕ → Text
decimal zero n = []
decimal (suc fuel) n =
    let rest = decimal fuel (n / 10) in
    if ltb n 10 then (n + b'0') ∷ [] else rest ++ (n % 10 + b'0') ∷ []

unfoldable pub format_u64 : ℕ → Text
unfolding decimal
format_u64 n = decimal 20 n

unfoldable pub parse_digits : ℕ → Text → Option ℕ
parse_digits acc [] = some acc
parse_digits acc (c ∷ cs) =
    let next : ℕ = acc * 10 + (c - b'0') in
    let rest = parse_digits next cs in
    if leb b'0' c && leb c b'9' && ltb next (2 ^ 64) then rest else none

-- `u64::from_str`: decimal digits, perhaps behind one `+`, below 2 ^ 64.
unfoldable pub u64_from_str : Text → Option ℕ
unfolding parse_digits
u64_from_str [] = none
u64_from_str (c ∷ []) = parse_digits 0 (c ∷ [])
u64_from_str (c ∷ d ∷ cs) =
    if c == b'+' then parse_digits 0 (d ∷ cs) else parse_digits 0 (c ∷ d ∷ cs)

abbrev pub colon : ℕ
colon = b':'

abbrev pub or_panic {ℓ} : {A : Type ℓ} → Option Text → (Text → Option A) → Option A
or_panic none f = none
or_panic (some s) f = f s

-- `none` is a panic of `to_base62`.
unfoldable pub to_id : SpotifyUri → Option Text
unfolding format_u64
to_id (album id) = to_base62 id
to_id (artist id) = to_base62 id
to_id (episode id) = to_base62 id
to_id (playlist user id) = to_base62 id
to_id (show id) = to_base62 id
to_id (track id) = to_base62 id
to_id (local artist_name album_title track_title duration) =
    some
      (artist_name ++ colon ∷ (album_title ++ colon ∷ (track_title ++ colon ∷ format_u64 duration)))
to_id (unknown kind id) = some id

-- The next part of the `split` iterator, or `InvalidFormat`.
abbrev pub next : List Text → Result SpotifyUriError (Text × List Text)
next [] = err invalid_format
next (p ∷ parts) = ok (p, parts)

unfoldable pub base62_id : Text → Result SpotifyUriError SpotifyId
base62_id name = elim (from_base62 name) [ ok id ↦ ok id | err e ↦ err (id_error e) ]

-- The `local` arm of the match: three more parts.
unfoldable pub parse_local : Text → List Text → SpotifyUriResult
unfolding u64_from_str
parse_local name parts = do
  (album_title, parts) ← next parts
  (track_title, parts) ← next parts
  (seconds, parts) ← next parts
  duration ← ok_or (u64_from_str seconds) invalid_format
  ok (local name album_title track_title duration)

-- `match item_type`.
unfoldable pub parse_item : Option Text → Text → Text → List Text → SpotifyUriResult
parse_item username item name parts =
    if text_eq item (codes "album")
    then (do id ← base62_id name; ok (album id))
    else if text_eq item (codes "artist")
    then (do id ← base62_id name; ok (artist id))
    else if text_eq item (codes "episode")
    then (do id ← base62_id name; ok (episode id))
    else if text_eq item (codes "playlist")
    then (do id ← base62_id name; ok (playlist username id))
    else if text_eq item (codes "show")
    then (do id ← base62_id name; ok (show id))
    else if text_eq item (codes "track")
    then (do id ← base62_id name; ok (track id))
    else if text_eq item (codes "local")
    then parse_local name parts
    else ok (unknown item name)

-- The block that binds `item_type`: a `user` part is followed by the name and the type.
unfoldable pub parse_type : List Text → Result SpotifyUriError (Option Text × Text × List Text)
parse_type parts = do
  (first, parts) ← next parts
  if text_eq first (codes "user")
      then (do (user, parts) ← next parts; (item, parts) ← next parts; ok (some user, item, parts))
      else ok (none, first, parts)

unfoldable pub from_parts : List Text → SpotifyUriResult
unfolding parse_type parse_item
from_parts parts = do
  (scheme, parts) ← next parts
  if text_eq scheme (codes "spotify")
      then (do
        (username, item, parts) ← parse_type parts
        (name, parts) ← next parts
        parse_item username item name parts)
      else err invalid_root

unfoldable pub from_uri : Text → SpotifyUriResult
unfolding from_parts
from_uri src = from_parts (split colon src)

unfoldable pub to_uri : SpotifyUri → Option Text
unfolding item_type to_id
to_uri (playlist (some user) id) =
    or_panic (to_base62 id)
      (λ s. some (codes "spotify:user:" ++ (user ++ colon ∷ (codes "playlist" ++ colon ∷ s))))
to_uri u = or_panic (to_id u) (λ name. some (codes "spotify:" ++ (item_type u ++ colon ∷ name)))
