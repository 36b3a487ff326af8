-- ===== src/Congestion/Sender/Reach.antt =====
-- The states that the calls of quic-go reach on a sender of bbr_sender.go.
use outbound.Prelude.{◌==◌, if◌then◌else◌, lt→ltb, if_holds, if_cases, ℕ, ◌*◌, ◌≤◌, ◌<◌, ◌≡◌}
use outbound.Prelude.{refl, sym, ap, Bool, true, false, ◌&&◌, none, some, arith}
use outbound.Congestion.Words.{half, mul64, signed, less, signed_min, signed_max, IsSmall}
use outbound.Congestion.Sender.Records.{BbrMode, gain_two, min_bps, Platform, BbrSender}
use outbound.Congestion.Sender.Records.{is_startup, is_probe_rtt}
use outbound.Congestion.Sender.Windows.{bandwidth_estimate, in_recovery}
use outbound.Congestion.Sender.Windows.{probe_rtt_congestion_window, get_congestion_window}
use outbound.Congestion.Sender.Windows.{can_send, bandwidth_for_pacer}
use outbound.Congestion.Sender.Modes.{enter_startup_mode, set_high_cwnd_gain}
use outbound.Congestion.Sender.Event.{CongestionEvent, is_none_left, new_sender, new_bbr_sender}
use outbound.Congestion.Sender.Event.{sender_on_packet_sent, set_max_datagram_size, handle_event}
use outbound.Congestion.Sender.Event.{on_congestion_event_ex}
use outbound.Congestion.Sender.Control.{IsControlled}
use outbound.Congestion.Sender.Gains.{handle_event-IsControlled}
use outbound.Congestion.Sender.Successors.{leads_to}
use outbound.Congestion.Sender.Transitions.{mode_transitions}
use outbound.Congestion.Sender.Limits.{On, Within, Recovery, handle_event_lem}
use mathlib.Core.Path.{subst}

unguarded {ℓ κ} :
    {A : Type ℓ} (Q : A → Type κ) (t : Bool) {x y : A}
    → (if t then none else some x) ≡ some y
    → Q x
    → Q y
unguarded Q true e h = absurd (ground (arith, e))
unguarded Q false {x} e h = subst Q (ap (λ o. elim o [ none ↦ x | some y ↦ y ]) e) h

-- The states after any calls; those that panic reach none.
pub data Reach (p : Platform) (size : ℕ) : BbrSender → Type 0 where
  created : Reach p size (new_bbr_sender p size)
  after_sent :
      {b : BbrSender}
      → Reach p size b
      → (sent_time in_flight n bytes : ℕ) (is_retransmittable : Bool)
      → Reach p size (sender_on_packet_sent p b sent_time in_flight n bytes is_retransmittable)
  after_resize :
      {b c : BbrSender}
      → Reach p size b
      → (s : ℕ) → set_max_datagram_size b s ≡ some c
      → Reach p size c
  after_event :
      {b c : BbrSender}
      → Reach p size b
      → (e : CongestionEvent) → on_congestion_event_ex p b e ≡ some c
      → Reach p size c

-- The windows of the sender that is created do not overflow and are in order.
abbrev pub IsSane : Platform → ℕ → Type 0
IsSane p size =
    (0 < p.initial_packet_size)
    × (4 * p.initial_packet_size ≤ 32 * size)
    × (32 * size ≤ p.max_congestion_window_packets * size)
    × IsSmall (p.max_congestion_window_packets * size)

abbrev pub least_window : Platform → ℕ
least_window p = mul64 4 p.initial_packet_size

-- What holds of every reachable state.
abbrev pub IsSound : Platform → BbrSender → Type 0
IsSound p b =
    IsControlled b
    × (is_startup b.mode ≡ true → b.is_at_full_bandwidth ≡ false)
    × On (Within (least_window p)) b
    × Recovery b

created-IsSound : (p : Platform) (size : ℕ) → IsSane p size → IsSound p (new_bbr_sender p size)
unfolding new_bbr_sender new_sender enter_startup_mode set_high_cwnd_gain in_recovery
created-IsSound p size (a, b, c, d) = (
  ((refl, refl, refl, refl, refl, refl, refl), omega arith, refl, tt),
  λ h. refl,
  (omega (arith, a, b, c, d), omega (arith, a, b, c, d), refl),
  λ h. absurd (ground (arith, h)),
)

sent-IsSound :
    (p : Platform) (b : BbrSender) (sent_time in_flight n bytes : ℕ) (r : Bool)
    → IsSound p b
    → IsSound p (sender_on_packet_sent p b sent_time in_flight n bytes r)
unfolding sender_on_packet_sent in_recovery
sent-IsSound p b sent_time in_flight n bytes r h = h

resized_window : (w l : ℕ) → (if w == l then l else w) ≡ w
resized_window w l = ground arith

resize-IsSound :
    (p : Platform) (b c : BbrSender) (s : ℕ)
    → set_max_datagram_size b s ≡ some c
    → IsSound p b
    → IsSound p c
unfolding set_max_datagram_size in_recovery
resize-IsSound p b c s e (g, m, (low, high, least), r) =
    let same = sym (resized_window b.congestion_window b.min_congestion_window) in
    unguarded (IsSound p) (less s b.max_datagram_size) e (
      g,
      m,
      (
        subst (λ w. signed b.min_congestion_window ≤ signed w) same low,
        subst (λ w. signed w ≤ signed b.max_congestion_window) same high,
        least,
      ),
      r,
    )

startup_not_full :
    (m m' : BbrMode) (f : Bool) → leads_to m m' f ≡ true → is_startup m' ≡ true → f ≡ false
startup_not_full m m' f h k = ground (arith, h, k)

event-IsSound :
    (p : Platform) (b c : BbrSender) (e : CongestionEvent)
    → on_congestion_event_ex p b e ≡ some c
    → IsSound p b
    → IsSound p c
unfolding on_congestion_event_ex
event-IsSound p b c e t (g, m, w, r) =
    let d = handle_event p b e in
    unguarded (IsSound p) (is_none_left e.acked && is_none_left e.lost) t (
      handle_event-IsControlled p b e g,
      startup_not_full b.mode d.mode d.is_at_full_bandwidth (mode_transitions p b e).0,
      (handle_event_lem p (least_window p) b e w).0,
      (handle_event_lem p (least_window p) b e w).1,
    )

-- The sizes are sane, and any calls have been made on the sender: the mode and its gains belong
-- together (STARTUP paces by 2.885, DRAIN by the inverse of it, PROBE_RTT by 1, and PROBE_BW by what the
-- cycle has at the present offset, which is less than 8); DRAIN, PROBE_BW and any recovery come only
-- after the full bandwidth is reached, STARTUP only before it; the congestion window is within its
-- limits, the lower one of 4 initial packets, and a recovery's window is not below that one.
pub Reach-IsSound :
    (p : Platform) (size : ℕ) (b : BbrSender) → IsSane p size → Reach p size b → IsSound p b
Reach-IsSound p size _ h created = created-IsSound p size h
Reach-IsSound p size _ h (after_sent {b} k sent_time in_flight n bytes r) =
    sent-IsSound p b sent_time in_flight n bytes r (Reach-IsSound p size b h k)
Reach-IsSound p size _ h (after_resize {b} {c} k s e) =
    resize-IsSound p b c s e (Reach-IsSound p size b h k)
Reach-IsSound p size _ h (after_event {b} {c} k e t) =
    event-IsSound p b c e t (Reach-IsSound p size b h k)

between :
    (low high w r : ℕ)
    → signed low ≤ signed w
    → signed w ≤ signed high
    → signed low ≤ signed r
    → (signed low ≤ signed (signed_min w r)) × (signed (signed_min w r) ≤ signed high)
between low high w r h k l = (ground (arith, h, k, l), ground (arith, h, k, l))

get_congestion_window_lem :
    (p : Platform) (b : BbrSender)
    → IsSound p b
    → (signed (least_window p) ≤ signed (get_congestion_window b))
      × (signed (get_congestion_window b) ≤ signed b.max_congestion_window)
unfolding get_congestion_window probe_rtt_congestion_window
get_congestion_window_lem p b (g, m, (low, high, least), r) =
    let Q : ℕ → Type 0 =
      λ w. (signed (least_window p) ≤ signed w) × (signed w ≤ signed b.max_congestion_window) in
    if_holds Q (is_probe_rtt b.mode)
      (subst Q (sym least) (omega arith, omega (arith, low, high, ap signed least)))
      (if_cases Q (in_recovery b)
        (λ t.
          let (l, h) =
            between b.min_congestion_window b.max_congestion_window b.congestion_window
              b.recovery_window low high (r t) in
          (
            subst (λ x. signed x ≤ signed (signed_min b.congestion_window b.recovery_window)) least
                l,
            h,
          ))
        (λ t. (subst (λ x. signed x ≤ signed b.congestion_window) least low, high)))

sends :
    (least w : ℕ)
    → 0 < least
    → IsSmall (4 * least)
    → signed (mul64 4 least) ≤ signed w
    → less 0 w ≡ true
sends least w h k l = lt→ltb half (signed w) (omega (arith, h, k, l))

-- The sizes are sane, and any calls have been made on the sender: `GetCongestionWindow` lies between 4
-- initial packets and the maximal window, so that `CanSend` lets a packet go out when nothing is in
-- flight.
pub window_bounds :
    (p : Platform) (size : ℕ) (b : BbrSender)
    → IsSane p size
    → Reach p size b
    → (signed (least_window p) ≤ signed (get_congestion_window b))
      × (signed (get_congestion_window b) ≤ signed b.max_congestion_window)
      × (can_send b 0 ≡ true)
unfolding can_send
window_bounds p size b h k =
    let (low, high) = get_congestion_window_lem p b (Reach-IsSound p size b h k) in
    (
      low,
      high,
      sends p.initial_packet_size (get_congestion_window b) h.0 (omega (arith, h.1, h.2, h.3)) low,
    )

-- The sizes are sane, and any calls have been made on the sender: whatever its mode, the pacer is given
-- twice the estimated bandwidth, or 64 KiB a second where that is less. The pacing gains do not reach
-- the pacer.
pub pacer_bandwidth :
    (p : Platform) (size : ℕ) (b : BbrSender)
    → IsSane p size
    → Reach p size b
    → bandwidth_for_pacer p b ≡ signed_max (p.pacer_share (bandwidth_estimate b) gain_two) min_bps
unfolding bandwidth_for_pacer
pacer_bandwidth p size b h k =
    let g = (Reach-IsSound p size b h k).0.0.4 in
    ap (λ x. signed_max (p.pacer_share (bandwidth_estimate b) x) min_bps) g
