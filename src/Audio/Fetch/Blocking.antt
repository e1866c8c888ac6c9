-- ===== src/Audio/Fetch/Blocking.antt =====
-- What `fetch_blocking` promises to the reader.
use librespot.Base.{
  ltb, ℕ, ◌+◌, ◌-◌, ◌≤◌, ◌<◌, ◌≡◌, ◌⊎◌, refl, sym, subst, ◌∙◌, true, false, List, [], ◌∷◌, some,
  All, le→leb, Bool-cases, inl, inr, arith,
}
use librespot.Base.Word.{usize_mod, wrapping_sub, wrapping_add_exact, wrapping_sub_exact}
use librespot.Base.Result.{ok}
use librespot.Audio.RangeSet.{Range, RangeSet, end, contains, union, contained_length_from_value}
use librespot.Audio.RangeSet.Order.{IsValid}
use librespot.Audio.RangeSet.Add.{IsRange}
use librespot.Audio.RangeSet.Length.{contained_length_from_value_lem}
use librespot.Audio.Fetch.{
  AudioFileDownloadStatus, AudioFileShared, AudioFetchParams, download_length, wanted_length,
}
use librespot.Audio.Fetch.Controller.{
  StreamLoaderController, WakeUp, Waited, clip, lacks, request_again, wait_for, fetch_blocking,
  wait_if_streamed,
}

-- The clipped range is the part of the range that is in the file.
clip_lem :
    (size : ℕ) (range : Range)
    → IsRange range
    → (clip size range).start ≡ range.start
      × ((v : ℕ)
          → range.start ≤ v
          → v < range.start + range.length
          → v < size
          → v < range.start + (clip size range).length)
unfolding clip end
clip_lem size range h = (
  ground arith,
  λ v a b c.
      ground
        (arith, wrapping_add_exact range.start range.length h, wrapping_sub_exact size range.start),
)

lacks_none :
    (s : RangeSet) (range : Range) (v : ℕ)
    → IsValid s
    → lacks s range ≡ false
    → range.start ≤ v
    → v < range.start + range.length
    → contains s v ≡ true
unfolding lacks
lacks_none s range v w e a b =
    subst (λ n. contains s n ≡ true) (omega arith)
      ((contained_length_from_value_lem s range.start w).0 (v - range.start) (ground arith))

-- The statuses that the loop can read.
abbrev pub statuses : List WakeUp → List AudioFileDownloadStatus
statuses [] = []
statuses (w ∷ ws) = w.status ∷ statuses ws

abbrev pub Among : AudioFileDownloadStatus → List AudioFileDownloadStatus → Type 0
Among a [] = ⊥
Among a (x ∷ xs) = (a ≡ x) ⊎ Among a xs

-- What holds of a wait that succeeded.
HasRange : Range → List AudioFileDownloadStatus → Waited → Type 0
HasRange range read w =
    w.result ≡ some (ok tt) → (lacks w.status.downloaded range ≡ false) × Among w.status read

again-HasRange :
    (c : StreamLoaderController) (status : AudioFileDownloadStatus) (range : Range) (w : Waited)
    (read : List AudioFileDownloadStatus)
    → HasRange range read w
    → HasRange range read (request_again c status range w)
unfolding request_again HasRange
again-HasRange c status range w read h =
    elim (Bool-cases (lacks (union status.downloaded status.requested) range)) [
      | inl e ↦ rw e h
      | inr e ↦ rw e h
    ]

later-HasRange :
    (range : Range) (status : AudioFileDownloadStatus) (read : List AudioFileDownloadStatus)
    (w : Waited)
    → HasRange range read w
    → HasRange range (status ∷ read) w
unfolding HasRange
later-HasRange range status read w h r = ((h r).0, inr (h r).1)

wait_for-HasRange :
    (c : StreamLoaderController) (range : Range) (status : AudioFileDownloadStatus)
    (ws : List WakeUp)
    → HasRange range (status ∷ statuses ws) (wait_for c range status ws)
unfolding wait_for
wait_for-HasRange c range status [] = elim (Bool-cases (lacks status.downloaded range)) [
  | inl e ↦ unfold HasRange in rw e (λ r. cc)
  | inr e ↦ unfold HasRange in λ r. (e, inl refl)
]
wait_for-HasRange c range status (w ∷ ws) = elim (Bool-cases (lacks status.downloaded range)) [
  | inl e ↦ elim (Bool-cases w.timed_out) [
    | inl late ↦ rw (e, late) (unfold HasRange in λ r. cc)
    | inr early ↦
        rw (e, early)
          (again-HasRange c w.status range (wait_for c range w.status ws)
            (status ∷ statuses (w ∷ ws))
            (later-HasRange range status (statuses (w ∷ ws)) (wait_for c range w.status ws)
              (wait_for-HasRange c range w.status ws)))
  ]
  | inr e ↦ rw e (unfold HasRange in λ r. (e, inl refl))
]

-- When `fetch_blocking` on a streamed file returns without an error, one of the statuses that it
-- read has every byte of the range that is in the file.
pub fetch_blocking_lem :
    (c : StreamLoaderController) (shared : AudioFileShared) (range : Range) (ws : List WakeUp)
    → IsRange range
    → c.stream_shared ≡ some shared
    → All (λ status. IsValid status.downloaded) (shared.download_status ∷ statuses ws)
    → (fetch_blocking c range ws).1 ≡ some (ok tt)
    → (status : AudioFileDownloadStatus) × Among status (shared.download_status ∷ statuses ws)
      × ((v : ℕ)
          → range.start ≤ v
          → v < range.start + range.length
          → v < c.file_size
          → contains status.downloaded v ≡ true)
unfolding fetch_blocking wait_if_streamed HasRange
fetch_blocking_lem c shared range ws h e valid r =
    let clipped = clip c.file_size range in
    let part = clip_lem c.file_size range h in
    let w = wait_for c clipped shared.download_status ws in
    let done : w.result ≡ some (ok tt) =
      subst (λ o. (wait_if_streamed c clipped ws o).1 ≡ some (ok tt)) e r in
    let has = wait_for-HasRange c clipped shared.download_status ws done in
    (
      w.status,
      has.1,
      λ v a b k.
          lacks_none w.status.downloaded clipped v
            (pick w.status (shared.download_status ∷ statuses ws) has.1 valid) has.0
            (omega (arith, part.0)) (omega (arith, part.0, part.1 v a b k)),
    )
  where
    pick :
        (a : AudioFileDownloadStatus) (xs : List AudioFileDownloadStatus)
        → Among a xs
        → All (λ status. IsValid status.downloaded) xs
        → IsValid a.downloaded
    pick a [] m w = absurd m
    pick a (x ∷ xs) (inl e) w = subst (λ s. IsValid s.downloaded) (sym e) w.0
    pick a (x ∷ xs) (inr m) w = pick a xs m w.1

-- The clipped range holds bytes of the range that are in the file only.
clip_within :
    (size : ℕ) (range : Range) (v : ℕ)
    → IsRange range
    → v < range.start + (clip size range).length
    → range.start ≤ v
    → (v < range.start + range.length) × (v < size)
unfolding clip end
clip_within size range v h k a = (
  ground
      (arith, wrapping_add_exact range.start range.length h, wrapping_sub_exact size range.start),
  ground
      (arith, wrapping_add_exact range.start range.length h, wrapping_sub_exact size range.start),
)

-- Every byte of the range that is in the file is downloaded.
abbrev pub IsThere : ℕ → Range → RangeSet → Type 0
IsThere size range s =
    (v : ℕ) → range.start ≤ v → v < range.start + range.length → v < size → contains s v ≡ true

-- A wake-up at which the range is there, with no timeout up to it.
abbrev pub Arrives : ℕ → Range → List WakeUp → Type 0
Arrives size range [] = ⊥
Arrives size range (w ∷ ws) =
    (w.timed_out ≡ false)
    × ((IsValid w.status.downloaded × IsThere size range w.status.downloaded)
        ⊎ Arrives size range ws)

lacks-IsThere :
    (size : ℕ) (range : Range) (s : RangeSet)
    → IsRange range
    → IsValid s
    → IsThere size range s
    → lacks s (clip size range) ≡ false
unfolding lacks
lacks-IsThere size range s h w there =
    let clipped = clip size range in
    let count = contained_length_from_value s clipped.start in
    let start = (clip_lem size range h).0 in
    let next : contains s (clipped.start + count) ≡ false =
      (contained_length_from_value_lem s clipped.start w).1 in
    elim (Bool-cases (ltb count clipped.length)) [
      | inr e ↦ e
      | inl e ↦
          let short : clipped.start + count < range.start + clipped.length =
            ground (arith, e, start) in
          let inside =
            clip_within size range (clipped.start + count) h short (omega (arith, start)) in
          let found = there (clipped.start + count) (omega (arith, start)) inside.0 inside.1 in
          absurd (ground (arith, found, next))
    ]

again_result :
    (c : StreamLoaderController) (status : AudioFileDownloadStatus) (range : Range) (w : Waited)
    → (request_again c status range w).result ≡ w.result
unfolding request_again
again_result c status range w =
    elim (Bool-cases (lacks (union status.downloaded status.requested) range)) [
      | inl e ↦ rw e refl
      | inr e ↦ rw e refl
    ]

wait_for-now :
    (c : StreamLoaderController) (range : Range) (status : AudioFileDownloadStatus)
    (ws : List WakeUp)
    → lacks status.downloaded range ≡ false
    → (wait_for c range status ws).result ≡ some (ok tt)
unfolding wait_for
wait_for-now c range status [] e = rw e refl
wait_for-now c range status (w ∷ ws) e = rw e refl

wait_for-Arrives :
    (c : StreamLoaderController) (size : ℕ) (range : Range) (status : AudioFileDownloadStatus)
    (ws : List WakeUp)
    → IsRange range
    → Arrives size range ws
    → (wait_for c (clip size range) status ws).result ≡ some (ok tt)
unfolding wait_for
wait_for-Arrives c size range status [] h a = absurd a
wait_for-Arrives c size range status (w ∷ ws) h a =
    let clipped = clip size range in
    elim (Bool-cases (lacks status.downloaded clipped)) [
      | inl e ↦
          rw (e, a.0)
            (again_result c w.status clipped (wait_for c clipped w.status ws) ∙ elim a.1 [
              | inl (valid, now) ↦
                  wait_for-now c clipped w.status ws
                    (lacks-IsThere size range w.status.downloaded h valid now)
              | inr later ↦ wait_for-Arrives c size range w.status ws h later
            ])
      | inr e ↦ rw e refl
    ]

-- `fetch_blocking` on a streamed file returns without an error when it wakes up and every byte of
-- the range that is in the file is downloaded, and no wait up to then has timed out. Bytes past the
-- end of the file are not waited for.
pub fetch_blocking-Arrives :
    (c : StreamLoaderController) (shared : AudioFileShared) (range : Range) (ws : List WakeUp)
    → IsRange range
    → c.stream_shared ≡ some shared
    → Arrives c.file_size range ws
    → (fetch_blocking c range ws).1 ≡ some (ok tt)
unfolding fetch_blocking wait_if_streamed
fetch_blocking-Arrives c shared range ws h e a =
    let clipped = clip c.file_size range in
    subst (λ o. (wait_if_streamed c clipped ws o).1 ≡ some (ok tt)) (sym e)
      (wait_for-Arrives c c.file_size range shared.download_status ws h a)

wrapping_sub_past : (a b : ℕ) → a < b → b < usize_mod → wrapping_sub a b ≡ usize_mod - (b - a)
unfolding wrapping_sub
wrapping_sub_past a b h k = omega arith

-- Past the end of the file: the range that `fetch_blocking` sends has length zero but keeps its
-- start, and `download_range` makes of it a length that wraps: the requested range starts past the
-- end of the file and is nearly 2 ^ 64 bytes long.
pub fetch_past_end :
    (params : AudioFetchParams) (shared : AudioFileShared) (range : Range)
    → shared.file_size < range.start
    → range.start + wanted_length params shared 0 < usize_mod
    → let clipped = clip shared.file_size range in
      (clipped ≡ record { start = range.start; length = 0 })
      × (download_length params shared clipped.start clipped.length
          ≡ usize_mod - (range.start - shared.file_size))
unfolding clip download_length wanted_length
fetch_past_end params shared range h k =
    let past = wrapping_sub_past shared.file_size range.start h (omega (arith, k)) in
    rw (le→leb shared.file_size range.start (omega arith))
      (refl, ground (arith, wrapping_add_exact range.start (wanted_length params shared 0) k, past))
