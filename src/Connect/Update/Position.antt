-- ===== src/Connect/Update/Position.antt =====
-- The context index of a track is its position in the context.
use librespot.Base.{
  ℕ, suc, ◌+◌, ◌^◌, ◌<◌, ◌≡◌, refl, ap, subst, ◌∙◌, List, [], ◌∷◌, ◌++◌, Option, none, some, All,
  length, if◌then◌else◌, arith,
}
use librespot.Base.Text.{Text, codes}
use librespot.Base.Dict.{find_entry-put_entry, find_entry-put_entry_other}
use librespot.Base.Result.{ok}
use librespot.Core.SpotifyUri.{SpotifyUri, format_u64, u64_from_str}
use librespot.Core.SpotifyUri.Parts.{u64_from_str-format_u64}
use librespot.Connect.Track.{
  Entries, ProvidedTrack, Provider, provider_name, from_context, unavailable, from_autoplay,
  get_context_index, get_usize, set_entry, context_index, is_autoplay_key,
}
use librespot.Connect.State.{ConnectState}
use librespot.Connect.Update.{
  ContextTrack, track_id, uri_text, context_to_provided_track, with_context_index, with_autoplay,
  with_context_uri, track_provider, put_all, unwrap_or, not_empty,
}
use librespot.Connect.Update.Pages.{convert_tracks}

-- A track with an identifier that has a printed form.
pub record IsConvertible (t : ContextTrack) : Type 0 where
  pub id : SpotifyUri
  pub text : Text
  pub has_id : track_id t ≡ ok id
  pub has_text : uri_text id ≡ ok text

-- The number in an entry.
abbrev number : Option Text → Option ℕ
number none = none
number (some text) = u64_from_str text

index_kept :
    (p : Provider) (t : ProvidedTrack) → get_context_index (with_autoplay p t) ≡ get_context_index t
unfolding with_autoplay get_context_index get_usize set_entry
index_kept from_context t = refl
index_kept Provider.from_queue t = refl
index_kept unavailable t = refl
index_kept from_autoplay t =
    ap number
      (find_entry-put_entry_other is_autoplay_key context_index (codes "true") t.metadata refl)

index_set :
    (i : ℕ) (t : ProvidedTrack)
    → i < 2 ^ 64
    → get_context_index (with_context_index (some i) t) ≡ some i
unfolding with_context_index get_context_index get_usize set_entry
index_set i t h =
    ap number (find_entry-put_entry context_index (format_u64 i) t.metadata)
    ∙ (u64_from_str-format_u64 i h).1

-- A convertible track is converted, to a track with the given index and the printed uri.
pub convert_lem :
    (new_uuid : Text) (s : ConnectState) (t : ContextTrack) (uri : Option Text) (i : ℕ)
    (metadata : Option Entries) (provider : Option Provider)
    → (c : IsConvertible t) → i < 2 ^ 64
    → (p : ProvidedTrack) × (context_to_provided_track new_uuid s t uri (some i) metadata provider
        ≡ ok p)
      × (get_context_index p ≡ some i)
unfolding context_to_provided_track
convert_lem new_uuid s t uri i metadata provider c h =
    rw (c.has_id, c.has_text) (provided, refl, index_kept kind with_index ∙ index_set i before h)
  where
    kind : Provider
    kind = track_provider s.unavailable_uri c.text provider

    before : ProvidedTrack
    before = with_context_uri uri (record {
      uri = c.text;
      uid = if not_empty t.track_uid then unwrap_or [] t.track_uid else new_uuid;
      provider = provider_name kind;
      metadata = put_all t.track_metadata (unwrap_or [] metadata);
    })

    with_index : ProvidedTrack
    with_index = with_context_index (some i) before

    provided : ProvidedTrack
    provided = with_autoplay kind with_index

-- The context indices of the tracks count up from `n`.
abbrev pub IsNumbered : ℕ → List ProvidedTrack → Type 0
IsNumbered n [] = Unit {0}
IsNumbered n (p ∷ ps) = (get_context_index p ≡ some n) × IsNumbered (suc n) ps

pub IsNumbered-append :
    (n : ℕ) (ps qs : List ProvidedTrack)
    → IsNumbered n ps
    → IsNumbered (n + length ps) qs
    → IsNumbered n (ps ++ qs)
IsNumbered-append n [] qs h k = subst (λ m. IsNumbered m qs) (omega arith) k
IsNumbered-append n (p ∷ ps) qs h k =
    (h.0, IsNumbered-append (suc n) ps qs h.1 (subst (λ m. IsNumbered m qs) (omega arith) k))

-- All tracks of a page are converted and numbered from the length of the context on.
pub convert_tracks-IsNumbered :
    (new_uuid : ℕ → Text) (s : ConnectState) (uri : Text) (l : ℕ) (metadata : Entries)
    (provider : Option Provider) (i : ℕ) (ts : List ContextTrack)
    → All IsConvertible ts
    → l + i + length ts < 2 ^ 64
    → let ps = convert_tracks new_uuid s uri (some l) metadata provider i ts in
      IsNumbered (l + i) ps × (length ps ≡ length ts)
unfolding convert_tracks
convert_tracks-IsNumbered new_uuid s uri l metadata provider i [] c h = (tt, refl)
convert_tracks-IsNumbered new_uuid s uri l metadata provider i (t ∷ ts) c h =
    let one =
      convert_lem (new_uuid i) s t (some uri) (l + i) (some metadata) provider c.0 (omega arith) in
    let rest =
      convert_tracks-IsNumbered new_uuid s uri l metadata provider (suc i) ts c.1 (omega arith) in
    let numbered =
      subst
        (λ m. IsNumbered m (convert_tracks new_uuid s uri (some l) metadata provider (suc i) ts))
        (omega arith) rest.0 in
    rw (one.1, convert_tracks) ((one.2, numbered), ap suc rest.1)

-- Without a length to number from, too, each track of a page is converted, and keeps its uri.
pub length-convert_tracks :
    (new_uuid : ℕ → Text) (s : ConnectState) (uri : Text) (metadata : Entries)
    (provider : Option Provider) (i : ℕ) (ts : List ContextTrack)
    → All IsConvertible ts
    → length (convert_tracks new_uuid s uri none metadata provider i ts) ≡ length ts
unfolding convert_tracks context_to_provided_track
length-convert_tracks new_uuid s uri metadata provider i [] c = refl
length-convert_tracks new_uuid s uri metadata provider i (t ∷ ts) c =
    rw (convert_tracks, c.0.has_id, c.0.has_text)
      (ap suc (length-convert_tracks new_uuid s uri metadata provider (suc i) ts c.1))
