-- ===== src/Core/Channel/Manager/Arrived.antt =====
-- core/src/channel.rs: the packets of a channel come to it in their order, whatever is called in
-- between: other channels are allocated, polled and dropped, and packets come for them.
use librespot.Base.{
  ℕ, zero, suc, subst, true, ◌≤◌, ◌≡◌, ◌≢◌, refl, ap, ◌∙◌, false, List, [], ◌∷◌, ◌++◌, Option, none,
  some, length, get_elem?, set, inl, inr, Bool-cases, arith,
}
use mathlib.Core.List.{append-nil}
use librespot.Base.Result.{Result}
use librespot.Core.Channel.{Bytes, ChannelError, Channel, next_seq}
use librespot.Core.Channel.Manager.{
  Channels, no_channels, find_sender, disconnect, drop_sender, new_channel, allocate, dispatch,
}
use librespot.Core.Channel.Manager.Linked.{find_sender-put, length-drop_sender}
use librespot.Core.Channel.Manager.Routing.{
  packet_for, holding, IsRouted, get_elem?-modify_channel, allocate-IsRouted, dispatch-IsRouted,
}
use librespot.Core.Channel.Manager.Shutdown.{
  Reaches, Step, allocated_next, dispatched, polled, dropped, stopped, same, stepped, drop_receiver,
  Reaches-IsLinked, no_channels-IsLinked,
}

-- What a step brings for the channel with the number.
unfoldable pub packet_of : {s s' : Channels} → ℕ → Step s s' → List (ℕ × Bytes)
packet_of seq (allocated_next s) = []
packet_of seq (dispatched s s' now cmd bytes r e) = packet_for seq cmd bytes
packet_of seq (polled s place c c' item e f) = []
packet_of seq (dropped s place) = []
packet_of seq (stopped s) = []

-- What a sequence of calls brings for it, in the order of the calls.
unfoldable pub arrived : (seq : ℕ) (s t : Channels) → Reaches s t → List (ℕ × Bytes)
arrived seq s _ same = []
arrived seq s _ (stepped t t' run step) =
    let before = arrived seq s t run in before ++ packet_of seq step

-- The step allocates no channel under the number, does not poll or drop the channel at the place,
-- and is no shutdown.
unfoldable pub LeavesAlone : {s s' : Channels} → ℕ → ℕ → Step s s' → Type 0
LeavesAlone seq place (allocated_next s) = s.manager.sequence ≢ seq
LeavesAlone seq place (dispatched s s' now cmd bytes r e) = Unit
LeavesAlone seq place (polled s other c c' item e f) = other ≢ place
LeavesAlone seq place (dropped s other) = other ≢ place
LeavesAlone seq place (stopped s) = ⊥

unfoldable pub AllLeaveAlone : (seq place : ℕ) (s t : Channels) → Reaches s t → Type 0
AllLeaveAlone seq place s _ same = Unit
AllLeaveAlone seq place s _ (stepped t t' run step) =
    let before = AllLeaveAlone seq place s t run in before × LeavesAlone seq place step

get_elem?-bound :
    (cs : List Channel) (n : ℕ) (c : Channel) → get_elem? cs n ≡ some c → suc n ≤ length cs
get_elem?-bound [] n c e = absurd cc
get_elem?-bound (x ∷ cs) zero c e = omega arith
get_elem?-bound (x ∷ cs) (suc n) c e = ground (arith, get_elem?-bound cs n c e)

get_elem?-front :
    (cs : List Channel) (x : Channel) (n : ℕ)
    → suc n ≤ length cs
    → get_elem? (cs ++ x ∷ []) n ≡ get_elem? cs n
get_elem?-front [] x n h = absurd (omega arith)
get_elem?-front (c ∷ cs) x zero h = refl
get_elem?-front (c ∷ cs) x (suc n) h = get_elem?-front cs x n (omega arith)

get_elem?-set_other :
    (cs : List Channel) (x : Channel) (p n : ℕ) → p ≢ n → get_elem? (set cs p x) n ≡ get_elem? cs n
get_elem?-set_other [] x p n h = refl
get_elem?-set_other (c ∷ cs) x zero zero h = absurd (h refl)
get_elem?-set_other (c ∷ cs) x zero (suc n) h = refl
get_elem?-set_other (c ∷ cs) x (suc p) zero h = refl
get_elem?-set_other (c ∷ cs) x (suc p) (suc n) h = get_elem?-set_other cs x p n (λ e. h (ap suc e))

get_elem?-drop_sender :
    (found : Option ℕ) (n : ℕ) (cs : List Channel)
    → found ≢ some n
    → get_elem? (drop_sender found cs) n ≡ get_elem? cs n
unfolding drop_sender
get_elem?-drop_sender none n cs h = refl
get_elem?-drop_sender (some p) n cs h =
    get_elem?-modify_channel disconnect p n cs (λ e. h (ap some e))

-- The allocation of another channel, before a shutdown and after it.
IsRouted-allocate :
    (seq place : ℕ) (s : Channels) (packets : List (ℕ × Bytes))
    → s.manager.sequence ≢ seq
    → IsRouted seq place s packets
    → IsRouted seq place (allocate s).2 packets
unfolding allocate next_seq
IsRouted-allocate seq place s packets n w =
    let found : Option ℕ = find_sender s.manager.sequence s.manager.channels in
    let bound = get_elem?-bound s.allocated place (holding packets) w.channel in
    let put =
      λ (id : ℕ). find_sender-put s.manager.sequence (length s.allocated) id s.manager.channels in
    let other : found ≢ some place = λ f. n (w.others s.manager.sequence place f refl) in
    elim (Bool-cases s.manager.invalid) [
      | inl h ↦ rw h (record {
        own = w.own;
        others = w.others;
        channel = get_elem?-front s.allocated (new_channel false) place bound ∙ w.channel;
      })
      | inr h ↦ rw h (record {
        own = ground (arith, put seq, w.own);
        others = λ id q e k. ground (arith, e, k, put id, bound, w.others id q);
        channel =
            get_elem?-front (drop_sender found s.allocated) (new_channel true) place
              (ground (arith, bound, length-drop_sender found s.allocated))
            ∙ get_elem?-drop_sender found place s.allocated other
            ∙ w.channel;
      })
    ]

IsRouted-dispatch :
    (seq place now cmd : ℕ) (bytes : Bytes) (s s' : Channels) (r : Result ChannelError (Unit {0}))
    (packets : List (ℕ × Bytes))
    → dispatch now cmd bytes s ≡ some (r, s')
    → IsRouted seq place s packets
    → IsRouted seq place s' (packets ++ packet_for seq cmd bytes)
IsRouted-dispatch seq place now cmd [] s s' r packets e w = absurd (unfold dispatch in cc)
IsRouted-dispatch seq place now cmd (high ∷ []) s s' r packets e w = absurd (unfold dispatch in cc)
IsRouted-dispatch seq place now cmd (high ∷ low ∷ bytes) s s' r packets e w =
    let one = dispatch-IsRouted seq place now cmd high low bytes s packets w in
    let after : one.0.1 ≡ s' = cc in
    subst (λ x. IsRouted seq place x (packets ++ packet_for seq cmd (high ∷ low ∷ bytes))) after
      one.2

IsRouted-step :
    {s s' : Channels} (seq place : ℕ) (packets : List (ℕ × Bytes)) (step : Step s s')
    → LeavesAlone seq place step
    → IsRouted seq place s packets
    → IsRouted seq place s' (packets ++ packet_of seq step)
unfolding LeavesAlone packet_of
IsRouted-step seq place packets (allocated_next s) h w =
    rw (append-nil packets) (IsRouted-allocate seq place s packets h w)
IsRouted-step seq place packets (dispatched s s' now cmd bytes r e) h w =
    IsRouted-dispatch seq place now cmd bytes s s' r packets e w
IsRouted-step seq place packets (polled s other c c' item e f) h w =
    rw (append-nil packets) (record {
      own = w.own;
      others = w.others;
      channel = get_elem?-set_other s.allocated c' other place h ∙ w.channel;
    })
IsRouted-step seq place packets (dropped s other) h w = rw (append-nil packets) (record {
  own = w.own;
  others = w.others;
  channel = get_elem?-modify_channel drop_receiver other place s.allocated h ∙ w.channel;
})
IsRouted-step seq place packets (stopped s) h w = absurd h

arrived-IsRouted :
    (seq place : ℕ) (s t : Channels) (run : Reaches s t)
    → AllLeaveAlone seq place s t run
    → IsRouted seq place s []
    → IsRouted seq place t (arrived seq s t run)
unfolding arrived AllLeaveAlone
arrived-IsRouted seq place s _ same h w = w
arrived-IsRouted seq place s _ (stepped t t' run step) h w =
    IsRouted-step seq place (arrived seq s t run) step h.1
      (arrived-IsRouted seq place s t run h.0 w)

-- After the allocation of a channel in any reachable state before a shutdown, and any further
-- calls that do not poll or drop this channel, shut the manager down or allocate the same number
-- again (which is after 2 ^ 16 allocations), the channel is connected and holds exactly the packets
-- with its number that were dispatched since, without the number and in their order. The calls may
-- allocate other channels, poll and drop them, and dispatch any packets.
pub arrived_lem :
    (s t : Channels) (run : Reaches (allocate s).2 t)
    → Reaches no_channels s
    → s.manager.invalid ≡ false
    → AllLeaveAlone (allocate s).0 (allocate s).1 (allocate s).2 t run
    → get_elem? t.allocated (allocate s).1
      ≡ some (holding (arrived (allocate s).0 (allocate s).2 t run))
arrived_lem s t run r h alone =
    let start = allocate-IsRouted s (Reaches-IsLinked no_channels s r no_channels-IsLinked) h in
    (arrived-IsRouted (allocate s).0 (allocate s).1 (allocate s).2 t run alone start).channel
