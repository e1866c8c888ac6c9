-- ===== src/Core/SpotifyId/Examples.antt =====
-- The identifier theorems at an identifier of the program's own tests.
use librespot.Base.{◌<◌, ◌≡◌, refl, some, length, arith}
use librespot.Base.Result.{ok}
use librespot.Base.Text.{Text, codes}
use librespot.Base.Radix.{digits}
use librespot.Core.SpotifyId.{SpotifyId, to_base62, from_base62, u128_mod}
use librespot.Core.SpotifyId.RoundTrip.{from_base62-to_base62, to_base62-from_base62}
use librespot.Core.SpotifyId.Base16.{to_base16, from_base16, from_base16-to_base16}

abbrev track_id : SpotifyId
track_id = record { id = 238762092608182713602505436543891614649 }

abbrev track_base62 : Text
track_base62 = codes "5sWHDYs0csV6RS48xBl0tH"

to_base62_runs : to_base62 track_id ≡ some track_base62
unfolding to_base62
to_base62_runs = refl

from_base62_runs : from_base62 track_base62 ≡ ok track_id
unfolding from_base62
from_base62_runs = refl

to_base16_runs : to_base16 track_id ≡ codes "b39fe8081e1f4c54be38e8d6f9f12bb9"
unfolding to_base16 digits
to_base16_runs = refl

from_base62-to_base62_example :
    (src : Text) × (to_base62 track_id ≡ some src)
    × (length src ≡ 22)
    × (from_base62 src ≡ ok track_id)
from_base62-to_base62_example = from_base62-to_base62 track_id (omega arith)

to_base62-from_base62_example : (track_id.id < u128_mod) × (to_base62 track_id ≡ some track_base62)
to_base62-from_base62_example = to_base62-from_base62 track_base62 track_id from_base62_runs

from_base16-to_base16_example :
    (length (to_base16 track_id) ≡ 32) × (from_base16 (to_base16 track_id) ≡ ok track_id)
from_base16-to_base16_example = from_base16-to_base16 track_id (omega arith)
