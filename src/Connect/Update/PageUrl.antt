-- ===== src/Connect/Update/PageUrl.antt =====
-- connect/src/state/context.rs: `page_url_to_uri`.
use librespot.Base.{
  ℕ, ◌≡◌, refl, ap, ◌∙◌, false, List, [], ◌∷◌, ◌++◌, All, take, drop, length, if◌then◌else◌, arith,
}
use librespot.Base.Text.{Text, codes, text_eq, split, IsFree, split_at}
use librespot.Connect.Track.{starts_with}

abbrev slash : ℕ
slash = b'/'

unfoldable pub strip_prefix : Text → Text → Text
strip_prefix prefix text = if starts_with text prefix then drop (length prefix) text else text

-- `skip_while(|s| s != "spotify")`.
unfoldable pub from_spotify : List Text → List Text
from_spotify [] = []
from_spotify (part ∷ parts) =
    let rest = from_spotify parts in if text_eq part (codes "spotify") then part ∷ parts else rest

-- `join(":")`.
unfoldable pub join : ℕ → List Text → Text
join sep [] = []
join sep (part ∷ []) = part
join sep (part ∷ next ∷ parts) = part ++ sep ∷ join sep (next ∷ parts)

unfoldable pub page_url_to_uri : Text → Text
page_url_to_uri page_url =
    join b':' (take 3 (from_spotify (split slash (strip_prefix (codes "hm://") page_url))))

-- Parts before the uri: free of slashes, and none is `spotify`.
abbrev pub IsBefore : List Text → Type 0
IsBefore parts = All (λ part. IsFree slash part × (text_eq part (codes "spotify") ≡ false)) parts

-- The text of a path: parts joined by slashes.
abbrev pub path : List Text → Text → Text
path [] rest = rest
path (part ∷ parts) rest = part ++ slash ∷ path parts rest

from_spotify-path :
    (parts : List Text) (rest : Text)
    → IsBefore parts
    → from_spotify (split slash (path parts rest)) ≡ from_spotify (split slash rest)
unfolding from_spotify
from_spotify-path [] rest h = refl
from_spotify-path (part ∷ parts) rest h =
    ap from_spotify (split_at slash part (path parts rest) h.0.0)
    ∙ rw h.0.1 (from_spotify-path parts rest h.1)

-- The uri in a page url of the expected shape: after the scheme and any parts that are not
-- `spotify`, the parts `spotify`, kind and id, then anything, are joined by colons.
pub page_url_to_uri_lem :
    (parts : List Text) (kind id rest : Text)
    → IsBefore parts
    → IsFree slash kind
    → IsFree slash id
    → page_url_to_uri (
        codes "hm://"
        ++ path parts (codes "spotify" ++ slash ∷ (kind ++ slash ∷ (id ++ slash ∷ rest))))
      ≡ codes "spotify:" ++ (kind ++ b':' ∷ id)
unfolding page_url_to_uri strip_prefix join from_spotify starts_with
page_url_to_uri_lem parts kind id rest h k i =
    let after = kind ++ slash ∷ (id ++ slash ∷ rest) in
    let tail = codes "spotify" ++ slash ∷ after in
    let cut : split slash after ≡ kind ∷ id ∷ split slash rest =
      split_at slash kind (id ++ slash ∷ rest) k ∙ ap (◌∷◌ kind) (split_at slash id rest i) in
    let parts_of : split slash tail ≡ codes "spotify" ∷ kind ∷ id ∷ split slash rest =
      split_at slash (codes "spotify") after (omega arith) ∙ ap (◌∷◌ (codes "spotify")) cut in
    ap (λ ps. join b':' (take 3 ps)) (from_spotify-path parts tail h ∙ ap from_spotify parts_of)
