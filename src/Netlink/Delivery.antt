-- ===== src/Netlink/Delivery.antt =====
-- What arrives through `spine_nl_recv` of src/spine_nl.c, and what `nl_sendmsg` delivers.
use spine_kernel.Prelude.{
  ℕ, suc, ◌+◌, ◌≤◌, ◌≡◌, refl, ◌⊎◌, inl, inr, true, none, some, ℤ, pos, negsuc, Bytes, read_le, [],
  take, length, Bool-cases, le→ltb, arith, append-nil,
}
use spine_kernel.Wire.{
  SpineMsgHeader, header_bytes, update_fields, measure, is_readable, check_update_fields_msg,
  check_measure_fields_msg,
}
use spine_kernel.Wire.RoundTrip.{IsHeader}
use spine_kernel.Datapath.State.{SpineDatapath, SpineConnection, SpinePrivState, live}
use spine_kernel.Datapath.Timer.{turn_off_fto_timer}
use spine_kernel.Datapath.Registry.{conn_at}
use spine_kernel.Datapath.Registry.Slots.{IsValid}
use spine_kernel.Datapath.Staging.{stage_msg, read_updates, read_measure, pending_of}
use spine_kernel.Datapath.Staging.Reception.{spine_read_msg-stage_msg, open_bound}
use spine_kernel.Netlink.{Netlink, NetKernel, nlmsg_hdrlen, spine_nl_recv, nl_sendmsg}

-- Behind the header there is no count, and no index of a measurement, to read.
truncated_lem :
    (dp : SpineDatapath) (h : SpineMsgHeader) (p : ℕ) (c : SpineConnection) (st : SpinePrivState)
    → conn_at dp p ≡ some c
    → c.state ≡ live st
    → (h.msg_type ≡ update_fields) ⊎ (h.msg_type ≡ measure)
    → stage_msg h dp p [] ≡ none
unfolding stage_msg read_updates read_measure check_update_fields_msg check_measure_fields_msg
    pending_of read_le
truncated_lem dp h p c st at_p has_state (inl update) = rw (update, at_p, has_state) refl
truncated_lem dp h p c st at_p has_state (inr request) = rw (request, at_p, has_state) refl

-- A message of nothing but a header passes as one of up to 24 bytes: the length that `spine_nl_recv`
-- announces counts the 16 bytes of netlink's header too. For an update or a measurement request to an
-- open connection the module then reads behind the message.
pub spine_nl_recv_overreads :
    (nl : Netlink) (dp : SpineDatapath) (h : SpineMsgHeader) (p : ℕ) (c : SpineConnection)
    (st : SpinePrivState)
    → nl.reader ≡ true
    → IsValid dp
    → conn_at dp p ≡ some c
    → c.index ≡ suc p
    → c.state ≡ live st
    → IsHeader h
    → (h.msg_type ≡ update_fields) ⊎ (h.msg_type ≡ measure)
    → h.socket_id ≡ suc p
    → h.len ≤ 24
    → spine_nl_recv nl dp (record { nlmsg_len = nlmsg_hdrlen + 8; payload = header_bytes h }) ≡ none
unfolding spine_nl_recv turn_off_fto_timer
spine_nl_recv_overreads nl dp h p c st ready v at_p own has_state fits kind sid short =
    let readable : is_readable h.msg_type ≡ true = elim kind [
      | inl update ↦ rw update refl
      | inr request ↦ rw request refl
    ] in
    let reached = rw (append-nil (header_bytes h)) at (
      spine_read_msg-stage_msg dp p 24 h [] {c = c} fits readable short (omega (arith, short)) sid
        (open_bound dp p v at_p) v.small at_p own) in
    rw (ready, reached, truncated_lem (turn_off_fto_timer dp) h p c st at_p has_state kind) refl

ℤ-cases : (z : ℤ) → ((n : ℕ) × (z ≡ pos n)) ⊎ ((n : ℕ) × (z ≡ negsuc n))
ℤ-cases (pos n) = inl (n, refl)
ℤ-cases (negsuc n) = inr (n, refl)

-- `nl_sendmsg` of a size within its buffer runs without a fault and never returns a positive number;
-- it returns 0 just if the bytes went out, which are the first `msg_size` of the buffer.
pub nl_sendmsg_lem :
    (net : NetKernel) (msg : Bytes) (msg_size : ℕ)
    → msg_size ≤ length msg
    → (nl_sendmsg net msg msg_size ≡ some (pos 0, some (take msg_size msg)))
      ⊎ ((n : ℕ) × (nl_sendmsg net msg msg_size ≡ some (negsuc n, none)))
unfolding nl_sendmsg
nl_sendmsg_lem net msg msg_size inside = elim (Bool-cases net.nlmsg_new) [
  | inr refused ↦ inr (0, rw refused refl)
  | inl room ↦ elim (ℤ-cases (net.nlmsg_multicast (take msg_size msg))) [
    | inl (n, sent) ↦ inl (rw (room, le→ltb (length msg) msg_size inside, sent) refl)
    | inr (n, failed) ↦ inr (n, rw (room, le→ltb (length msg) msg_size inside, failed) refl)
  ]
]
