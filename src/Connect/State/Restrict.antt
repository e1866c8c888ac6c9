-- ===== src/Connect/State/Restrict.antt =====
-- connect/src/state/restrictions.rs: what the other devices may not do at the moment.
use librespot.Base.{Bool, true, false, List, [], ◌∷◌, Option, none, some, if◌then◌else◌}
use librespot.Base.Text.{Text, codes}
use librespot.Connect.Track.{is_autoplay}
use librespot.Connect.State.{
  Restrictions, no_restrictions, ConnectState, current_track, is_playing, is_pause,
}

abbrev only : Text → List Text
only reason = reason ∷ []

abbrev is_empty_list {ℓ} : {A : Type ℓ} → List A → Bool
is_empty_list [] = true
is_empty_list (x ∷ xs) = false

abbrev restrict_playback : Bool → Bool → Restrictions → Restrictions
restrict_playback playing paused r =
    let r' =
      if playing
      then record r { disallow_pausing = []; disallow_resuming = only (codes "not_paused") }
      else r in
    if paused
    then record r' { disallow_resuming = []; disallow_pausing = only (codes "not_playing") }
    else r'

abbrev restrict_skipping : Bool → Restrictions → Restrictions
restrict_skipping no_prev r =
    let reasons = if no_prev then only (codes "no previous tracks") else [] in
    record r { disallow_peeking_prev = reasons; disallow_skipping_prev = reasons }

abbrev restrict_toggling : Bool → Restrictions → Restrictions
restrict_toggling from_autoplay r =
    let reasons = if from_autoplay then only (codes "autoplay") else [] in
    record r {
      disallow_toggling_shuffle = reasons;
      disallow_toggling_repeat_context = reasons;
      disallow_toggling_repeat_track = reasons;
    }

-- Restrictions that are not set are new ones, without the part on pausing and resuming.
abbrev base_restrictions : Bool → Bool → Option Restrictions → Restrictions
base_restrictions playing paused none = no_restrictions
base_restrictions playing paused (some r) = restrict_playback playing paused r

unfoldable pub update_restrictions : ConnectState → ConnectState
unfolding is_playing is_pause is_autoplay
update_restrictions s =
    let r = base_restrictions (is_playing s) (is_pause s) s.player.player_restrictions in
    record s {
      player = record s.player {
        player_restrictions = some (
            restrict_toggling (is_autoplay (current_track s))
              (restrict_skipping (is_empty_list s.player.prev_tracks) r));
      };
    }
