-- ===== src/Upf/Downlink.antt =====
-- User data at the user plane function: what is forwarded, to whom, and what is dropped.
use sba_g_rpc_5g.Base.{
  nonzero, ℕ, Bool, true, Option, ◌↔◌, ◌+◌, ◌%◌, ◌^◌, ◌≤◌, ◌≡◌, ◌≢◌, refl, ap, ◌∙◌, none, some, [],
  ◌++◌, length, take, arith, append-nil, append_assoc, length-append, sym, ◌⊎◌, inl, inr,
  Bool-cases, ◌==◌, take-append, drop-append,
}
use sba_g_rpc_5g.Result.{ok, ◌>>=◌, bind_assoc}
use sba_g_rpc_5g.Bytes.{Bytes}
use sba_g_rpc_5g.Packet.{Packet, peek, prepend_gtp_hdr, buf_size}
use sba_g_rpc_5g.Packet.View.{view, buffer, peek-buffer}
use sba_g_rpc_5g.Packet.Moves.{truncate-view, payload-view}
use sba_g_rpc_5g.Messages.{user_message, send_user_data}
use sba_g_rpc_5g.Net.{SockAddr, Datagram, set_inet_sock_addr, snd, inet_ntop, get_dst_ip_addr}
use sba_g_rpc_5g.Upf.State.{UeContext, Upf}
use sba_g_rpc_5g.Upf.Tables.{get_imsi_addr, DownlinkInfo, get_downlink_info}
use sba_g_rpc_5g.Upf.Session.{handle_uplink_udata, handle_downlink_udata}

-- Uplink data that fits the buffer goes to the sink without what was read of it.
pub handle_uplink_udata-strips :
    (sink : SockAddr) (q : Packet) (hdr inner : Bytes)
    → length hdr + length inner ≤ buf_size
    → handle_uplink_udata sink (view q hdr inner) ≡ ok (record { to = sink; bytes = inner })
unfolding handle_uplink_udata snd
handle_uplink_udata-strips sink q hdr inner h =
    rw (truncate-view q hdr inner h, payload-view q [] inner (omega arith))

-- What leads downlink data for an address nowhere.
pub data IsUndeliverable (u : Upf) (addr : Bytes) : Type 0 where
  no_session : u.sgi_id addr ≡ none → IsUndeliverable u addr
  no_imsi : u.sgi_id addr ≡ some 0 → IsUndeliverable u addr
  no_context :
      (imsi : ℕ) → u.sgi_id addr ≡ some imsi → u.ue_ctx imsi ≡ none → IsUndeliverable u addr
  no_station :
      (imsi : ℕ) (c : UeContext)
      → u.sgi_id addr ≡ some imsi
      → u.ue_ctx imsi ≡ some c
      → c.enodeb_port ≡ 0
      → IsUndeliverable u addr

option_cases : {A : Type 0} (o : Option A) → (o ≡ none) ⊎ ((x : A) × (o ≡ some x))
option_cases none = inl refl
option_cases (some x) = inr (x, refl)

module _ (q : Packet) (u : Upf) (head addr_bytes tail : Bytes) (at_16 : 16 ≡ length head)
    (four : 4 ≡ length addr_bytes) (fits : 36 + length tail ≤ buf_size) where
  -- An IP packet whose destination is in the bytes 16 to 19.
  abbrev packet : Bytes
  packet = head ++ (addr_bytes ++ tail)

  packet_header : peek 0 20 (view q [] packet).data_ ≡ ok (head ++ addr_bytes)
  unfolding view
  packet_header =
      ap (λ bs. peek 0 20 (buffer bs)) (sym (append_assoc head addr_bytes tail))
      ∙ peek-buffer 0 20 [] (head ++ addr_bytes) tail refl
          (omega (arith, length-append head addr_bytes))

  take_four : take 4 addr_bytes ≡ addr_bytes
  take_four = ap (take 4) (sym (append-nil addr_bytes)) ∙ take-append 4 addr_bytes [] four

  dst : get_dst_ip_addr (view q [] packet) ≡ ok (inet_ntop addr_bytes)
  unfolding get_dst_ip_addr
  dst = rw (packet_header, drop-append 16 head addr_bytes at_16, take_four)

  module _ (inet_aton : Bytes → Bool) where
    -- Downlink data of at least 20 bytes that fits the buffer with a header: if the destination
    -- address in it leads to a session of an IMSI other than 0 with a base station whose address
    -- inet_aton accepts, it goes unchanged to this address and the lower 16 bits of the port, behind
    -- a user data header with the downlink TEID of the session.
    pub handle_downlink_udata-forwards :
        (imsi : ℕ) (d : DownlinkInfo)
        → u.sgi_id (inet_ntop addr_bytes) ≡ some imsi
        → imsi ≢ 0
        → get_downlink_info imsi u ≡ some d
        → inet_aton d.enodeb_ip_addr ≡ true
        → let out : Datagram = record {
          to = record { ip_addr = d.enodeb_ip_addr; port = d.enodeb_port % 2 ^ 16 };
          bytes = user_message 2 d.s1_uteid_dl q.gtp_hdr packet;
        } in
          handle_downlink_udata inet_aton (view q [] packet) u ≡ ok (some out)
    unfolding handle_downlink_udata get_imsi_addr set_inet_sock_addr snd
    handle_downlink_udata-forwards imsi d known real ready valid =
        let small : 16 + length packet ≤ buf_size =
          omega (arith, length-append head (addr_bytes ++ tail), length-append addr_bytes tail) in
        let to : SockAddr = record { ip_addr = d.enodeb_ip_addr; port = d.enodeb_port % 2 ^ 16 } in
        rw (dst, known, nonzero imsi real, ready, truncate-view q [] packet (omega arith), valid)
          (sym (
              bind_assoc
                (prepend_gtp_hdr 1 2 (view q [] packet).len d.s1_uteid_dl (view q [] packet))
                (snd to) (λ out. ok (some out)))
            ∙ ap (λ r. r >>= λ out. ok (some out))
                (send_user_data to 2 d.s1_uteid_dl q packet small))

    dropped :
        handle_downlink_udata inet_aton (view q [] packet) u ≡ ok none
        → IsUndeliverable u (inet_ntop addr_bytes)
    unfolding handle_downlink_udata get_imsi_addr get_downlink_info
    dropped e = elim (option_cases (u.sgi_id (inet_ntop addr_bytes))) [
      | inl unknown_addr ↦ no_session unknown_addr
      | inr (imsi, known) ↦ elim (Bool-cases (imsi == 0)) [
        | inl zero_imsi ↦ no_imsi (known ∙ ap some (ground (arith, zero_imsi)))
        | inr real ↦ elim (option_cases (u.ue_ctx imsi)) [
          | inl gone ↦ no_context imsi known gone
          | inr (c, there) ↦ elim (Bool-cases (c.enodeb_port == 0)) [
            | inl unready ↦ no_station imsi c known there (ground (arith, unready))
            | inr ready ↦ absurd (ground (arith, rw (dst, known, real, there, ready) at e))
          ]
        ]
      ]
    ]

    drops :
        IsUndeliverable u (inet_ntop addr_bytes)
        → handle_downlink_udata inet_aton (view q [] packet) u ≡ ok none
    unfolding handle_downlink_udata get_imsi_addr get_downlink_info
    drops (no_session unknown_addr) = rw (dst, unknown_addr)
    drops (no_imsi known) = rw (dst, known)
    drops (no_context imsi known gone) = rw (dst, known, gone) (ground arith)
    drops (no_station imsi c known there unready) = rw (dst, known, there, unready) (ground arith)

    -- Downlink data of at least 20 bytes that fits the buffer with a header is dropped if its
    -- destination address leads to no session, to the IMSI 0, to an IMSI without a context, or to a
    -- context with the port 0, and in no other case.
    pub handle_downlink_udata-drops :
        (handle_downlink_udata inet_aton (view q [] packet) u ≡ ok none)
        ↔ IsUndeliverable u (inet_ntop addr_bytes)
    handle_downlink_udata-drops = (dropped, drops)
