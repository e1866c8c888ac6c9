-- ===== src/Core/Channel/Manager/Routing.antt =====
-- core/src/channel.rs: what one packet does to an allocated channel, and to the others.
use librespot.Base.{
  ℕ, zero, suc, ◌+◌, ◌*◌, ◌≡◌, ◌≢◌, refl, sym, ap, ◌∙◌, true, false, List, [], ◌∷◌, ◌++◌, Option,
  none, some, ◌==◌, length, get_elem?, inl, inr, Bool-cases, arith, if◌then◌else◌,
}
use mathlib.Core.List.{append-nil}
use librespot.Base.Result.{Result, ok, err}
use librespot.Core.Channel.{Bytes, ChannelError, Channel, header, next_seq}
use librespot.Core.Channel.Manager.{
  ChannelManager, Channels, find_sender, modify_channel, drop_sender, new_channel, allocate,
  measure_from, count_bytes, push_packet, send, send_to, sent, dispatch,
}
use librespot.Core.Channel.Manager.Linked.{IsLinked, find_sender-put, length-drop_sender, kept_map}

-- The packet without the number, if it is the given one.
unfoldable pub packet_for : ℕ → ℕ → Bytes → List (ℕ × Bytes)
packet_for seq cmd [] = []
packet_for seq cmd (high ∷ []) = []
packet_for seq cmd (high ∷ low ∷ bytes) = if high * 256 + low == seq then (cmd, bytes) ∷ [] else []

abbrev pub holding : List (ℕ × Bytes) → Channel
holding packets = record { packets = packets; has_sender = true; channel_state = header [] }

-- The channel at `place` is connected under the number `seq` only, and holds the packets.
pub record IsRouted (seq place : ℕ) (s : Channels) (arrived : List (ℕ × Bytes)) : Type 0 where
  pub own : find_sender seq s.manager.channels ≡ some place
  pub others : (id q : ℕ) → find_sender id s.manager.channels ≡ some q → q ≡ place → id ≡ seq
  pub channel : get_elem? s.allocated place ≡ some (holding arrived)

pub get_elem?-modify_channel :
    (f : Channel → Channel) (p q : ℕ) (cs : List Channel)
    → p ≢ q
    → get_elem? (modify_channel f p cs) q ≡ get_elem? cs q
unfolding modify_channel
get_elem?-modify_channel f p q [] n = refl
get_elem?-modify_channel f zero zero (c ∷ cs) n = absurd (n refl)
get_elem?-modify_channel f zero (suc q) (c ∷ cs) n = refl
get_elem?-modify_channel f (suc p) zero (c ∷ cs) n = refl
get_elem?-modify_channel f (suc p) (suc q) (c ∷ cs) n =
    get_elem?-modify_channel f p q cs (λ e. n (ap suc e))

get_elem?-modified :
    (f : Channel → Channel) (p : ℕ) (cs : List Channel) (c : Channel)
    → get_elem? cs p ≡ some c
    → get_elem? (modify_channel f p cs) p ≡ some (f c)
unfolding modify_channel
get_elem?-modified f p [] c e = absurd cc
get_elem?-modified f zero (x ∷ cs) c e = let same : x ≡ c = cc in ap (λ x. some (f x)) same
get_elem?-modified f (suc p) (x ∷ cs) c e = get_elem?-modified f p cs c e

get_elem?-last :
    (cs : List Channel) (c : Channel) (n : ℕ) → length cs ≡ n → get_elem? (cs ++ c ∷ []) n ≡ some c
get_elem?-last [] c zero e = refl
get_elem?-last [] c (suc n) e = absurd (omega arith)
get_elem?-last (x ∷ cs) c zero e = absurd (omega arith)
get_elem?-last (x ∷ cs) c (suc n) e = get_elem?-last cs c n (omega arith)

pub allocate-IsRouted :
    (s : Channels)
    → IsLinked s
    → s.manager.invalid ≡ false
    → IsRouted (allocate s).0 (allocate s).1 (allocate s).2 []
unfolding allocate next_seq
allocate-IsRouted s l h =
    let found : Option ℕ = find_sender s.manager.sequence s.manager.channels in
    let put =
      λ (id : ℕ). find_sender-put s.manager.sequence (length s.allocated) id s.manager.channels in
    rw h (record {
      own = ground (arith, put s.manager.sequence);
      others = λ id q e k. ground (arith, e, k, put id, l.in_range id q);
      channel =
          get_elem?-last (drop_sender found s.allocated) (new_channel true) (length s.allocated)
            (length-drop_sender found s.allocated);
    })

-- A packet with the number of the channel.
send_to-own :
    (cmd : ℕ) (bytes : Bytes) (place : ℕ) (cs : List Channel) (arrived : List (ℕ × Bytes))
    → get_elem? cs place ≡ some (holding arrived)
    → send_to cmd bytes (some place) cs ≡ ok (modify_channel (push_packet cmd bytes) place cs)
unfolding send_to send
send_to-own cmd bytes place cs arrived e = rw e refl

-- What `send_to` does to the channel at `place` when it sends to another.
Spares : ℕ → List Channel → Result ChannelError (List Channel) → Type 0
Spares place cs (err e) = Unit
Spares place cs (ok cs') = get_elem? cs' place ≡ get_elem? cs place

send-Spares :
    (cmd : ℕ) (bytes : Bytes) (c : Option Channel) (p place : ℕ) (cs : List Channel)
    → p ≢ place
    → Spares place cs (send cmd bytes c p cs)
unfolding Spares send
send-Spares cmd bytes none p place cs n = tt
send-Spares cmd bytes (some c) p place cs n = elim (Bool-cases c.has_sender) [
  | inl e ↦ rw (e, send, Spares) (get_elem?-modify_channel (push_packet cmd bytes) p place cs n)
  | inr e ↦ rw (e, send, Spares) tt
]

send_to-Spares :
    (cmd : ℕ) (bytes : Bytes) (p : Option ℕ) (place : ℕ) (cs : List Channel)
    → p ≢ some place
    → Spares place cs (send_to cmd bytes p cs)
unfolding Spares send_to
send_to-Spares cmd bytes none place cs n = refl
send_to-Spares cmd bytes (some p) place cs n =
    unfold Spares in send-Spares cmd bytes (get_elem? cs p) p place cs (λ e. n (ap some e))

spared-IsRouted :
    (seq place : ℕ) (s : Channels) (arrived : List (ℕ × Bytes)) (m : ChannelManager)
    (r : Result ChannelError (List Channel))
    → m.channels ≡ s.manager.channels
    → Spares place s.allocated r
    → IsRouted seq place s arrived
    → IsRouted seq place (sent m s.allocated r).1 arrived
unfolding sent Spares
spared-IsRouted seq place s arrived m (ok cs) e k w = record {
  own = rw e w.own;
  others = λ id q f. w.others id q (sym (ap (find_sender id) e) ∙ f);
  channel = k ∙ w.channel;
}
spared-IsRouted seq place s arrived m (err x) e k w = record {
  own = rw e w.own;
  others = λ id q f. w.others id q (sym (ap (find_sender id) e) ∙ f);
  channel = w.channel;
}

pushed-IsRouted :
    (seq place cmd : ℕ) (bytes : Bytes) (s : Channels) (arrived : List (ℕ × Bytes))
    (m : ChannelManager)
    → m.channels ≡ s.manager.channels
    → IsRouted seq place s arrived
    → IsRouted seq place
        (sent m s.allocated (send_to cmd bytes (some place) s.allocated)).1
        (arrived ++ (cmd, bytes) ∷ [])
pushed-IsRouted seq place cmd bytes s arrived m e w =
    rw (send_to-own cmd bytes place s.allocated arrived w.channel) (
      unfold sent in
      record {
        own = rw e w.own;
        others = λ id q f. w.others id q (sym (ap (find_sender id) e) ∙ f);
        channel =
            unfold push_packet in
            get_elem?-modified (push_packet cmd bytes) place s.allocated (holding arrived)
              w.channel;
      })

-- One packet: it is added to the channel if it has the number, and otherwise spares it.
pub dispatch-IsRouted :
    (seq place now cmd high low : ℕ) (bytes : Bytes) (s : Channels) (arrived : List (ℕ × Bytes))
    → IsRouted seq place s arrived
    → (r : Result ChannelError (Unit {0}) × Channels) × (dispatch now cmd (high ∷ low ∷ bytes) s
        ≡ some r)
      × IsRouted seq place r.1 (arrived ++ packet_for seq cmd (high ∷ low ∷ bytes))
unfolding dispatch packet_for
dispatch-IsRouted seq place now cmd high low bytes s arrived w =
    let m : ChannelManager =
      count_bytes (length bytes)
        (measure_from s.manager.download_measurement_start now s.manager) in
    let kept : m.channels ≡ s.manager.channels =
      (kept_map s.manager.download_measurement_start now (length bytes) s.manager).0 in
    let id : ℕ = high * 256 + low in
    let found : Option ℕ = find_sender id s.manager.channels in
    (
      sent m s.allocated (send_to cmd bytes found s.allocated),
      refl,
      elim (Bool-cases (high * 256 + low == seq)) [
        | inl e ↦
            let same : id ≡ seq = ground (arith, e) in
            let here : found ≡ some place =
              ap (λ x. find_sender x s.manager.channels) same ∙ w.own in
            rw (e, here) (pushed-IsRouted seq place cmd bytes s arrived m kept w)
        | inr e ↦
            let other : found ≢ some place =
              λ f. absurd (ground (arith, e, w.others id place f refl)) in
            rw (e, append-nil arrived)
              (spared-IsRouted seq place s arrived m (send_to cmd bytes found s.allocated) kept
                (send_to-Spares cmd bytes found place s.allocated other) w)
      ],
    )
