-- ===== src/Core/SpotifyUri/Examples.antt =====
-- The URI round trip at concrete URIs.
use librespot.Base.{◌≡◌, refl, some, arith}
use librespot.Base.Result.{ok, err}
use librespot.Base.Text.{Text, codes, split}
use librespot.Core.SpotifyId.{from_base62}
use librespot.Core.SpotifyUri.{SpotifyUri, playlist, from_uri, to_uri, base62_id, invalid_format}
use librespot.Core.SpotifyUri.RoundTrip.{kept, from_uri-to_uri}

abbrev named : SpotifyUri
named = playlist (some (codes "spotify")) (record { id = 136159921382084734723401526672209703396 })

from_uri_user : from_uri (codes "spotify:user:spotify:playlist:37i9dQZF1DWSw8liJZcPOI") ≡ ok named
unfolding from_uri split base62_id from_base62
from_uri_user = refl

from_uri_root : from_uri (codes "spotify") ≡ err invalid_format
unfolding from_uri split
from_uri_root = refl

from_uri-to_uri_example :
    (src : Text) × (to_uri named ≡ some src) × (from_uri src ≡ ok (kept named))
from_uri-to_uri_example = from_uri-to_uri named (omega arith)
