-- ===== src/DataPlane.antt =====
-- User data from the base station to the sink and back to the tunnel device of the base station:
-- class TrafficMonitor of src/ran.cpp, the receive loops of
-- src/upf_server.cpp and class TrafficMonitor of src/sink.cpp.
use sba_g_rpc_5g.Base.{
  ℕ, ◌+◌, ◌%◌, ◌^◌, ◌≤◌, ◌<◌, ◌≡◌, ◌≢◌, Bool, true, refl, ap, ◌∙◌, sym, Option, none, some, drop,
  ◌==◌, if◌then◌else◌, [], ◌++◌, length, take, arith, append_assoc, length-append, take-append,
  drop-append,
}
use sba_g_rpc_5g.Result.{Result, ok, ◌>>=◌, bind_assoc}
use sba_g_rpc_5g.Bytes.{Bytes}
use sba_g_rpc_5g.Packet.{
  Packet, Gtp, gtp_bytes, peek, prepend_gtp_hdr, received, payload, truncate, extract_gtp_hdr, copy,
  buf_size,
}
use sba_g_rpc_5g.Packet.View.{view, buffer, peek-buffer, gtp_hdr-view}
use sba_g_rpc_5g.Packet.Moves.{truncate-view, payload-view, received-view, copy-view}
use sba_g_rpc_5g.Packet.Transport.{IsGtp, user_hdr, extract_gtp_hdr-view, length-gtp_bytes}
use sba_g_rpc_5g.Messages.{user_message, send_user_data}
use sba_g_rpc_5g.Net.{SockAddr, Datagram, set_inet_sock_addr, snd, inet_ntop, get_src_ip_addr}
use sba_g_rpc_5g.Upf.State.{Upf}
use sba_g_rpc_5g.Upf.Tables.{DownlinkInfo, get_downlink_info}
use sba_g_rpc_5g.Upf.Session.{handle_uplink_udata}
use sba_g_rpc_5g.Upf.Server.{s1_round, sgi_round}
use sba_g_rpc_5g.Upf.Downlink.{handle_uplink_udata-strips, handle_downlink_udata-forwards}
use sba_g_rpc_5g.Sink.{g_pgw_sgi}
use sba_g_rpc_5g.Sink
use sba_g_rpc_5g.Ran.Traffic as RanTraffic
use sba_g_rpc_5g.Ran.Traffic.{UplinkInfo, TrafficMonitor}

user_hdr-IsGtp :
    (msg_type msg_len teid : ℕ) (h : Gtp)
    → IsGtp h
    → msg_type < 2 ^ 8
    → msg_len < 2 ^ 16
    → teid < 2 ^ 32
    → IsGtp (user_hdr msg_type msg_len teid h)
unfolding user_hdr
user_hdr-IsGtp msg_type msg_len teid h r a b c = record {
  flags = omega arith;
  pad_1 = r.pad_1;
  msg_len = b;
  field_1 = r.field_1;
  field_2 = r.field_2;
  field_3 = r.field_3;
  msg_type = a;
  pad_2 = r.pad_2;
  teid = c;
}

abbrev data_hdr : ℕ → ℕ → Gtp → Bytes → Gtp
data_hdr msg_type teid h inner = user_hdr msg_type (length inner % 2 ^ 16) teid h

-- A message with user data, received and with its header read.
module _ (msg_type teid : ℕ) (h : Gtp) (inner : Bytes) (p : Packet) (r : IsGtp h)
    (a : msg_type < 2 ^ 8) (c : teid < 2 ^ 32) (fits : 16 + length inner ≤ buf_size) where
  abbrev hdr : Gtp
  hdr = data_hdr msg_type teid h inner

  abbrev opened : Packet
  opened = view (record p { gtp_hdr = hdr }) (gtp_bytes hdr) inner

  open_user_message :
      (received (user_message msg_type teid h inner) p >>= extract_gtp_hdr) ≡ ok opened
  unfolding user_message
  open_user_message = rw (
    received-view (gtp_bytes hdr ++ inner) p
        (omega (arith, length-append (gtp_bytes hdr) inner, length-gtp_bytes hdr)),
    extract_gtp_hdr-view hdr p [] inner
        (user_hdr-IsGtp msg_type (length inner % 2 ^ 16) teid h r a (omega arith) c),
  )

  -- Where it is written to the tunnel device, what is written is the user data.
  tunnel_user_message :
      (received (user_message msg_type teid h inner) p >>= RanTraffic.handle_downlink_udata)
      ≡ ok inner
  unfolding RanTraffic.handle_downlink_udata
  tunnel_user_message =
      sym (
        bind_assoc (received (user_message msg_type teid h inner) p) extract_gtp_hdr
          (λ q. truncate q >>= payload))
      ∙ rw (
        open_user_message,
        truncate-view (record p { gtp_hdr = hdr }) (gtp_bytes hdr) inner
            (omega (arith, length-gtp_bytes hdr)),
        payload-view (record p { gtp_hdr = hdr }) [] inner (omega arith),
      )

forward_user_data :
    (dst : SockAddr) (teid : ℕ) (q : Packet) (inner : Bytes)
    → 16 + length inner ≤ buf_size
    → (prepend_gtp_hdr 1 1 (view q [] inner).len teid (view q [] inner) >>= λ p1.
        snd dst p1 >>= λ out. ok (some out))
      ≡ ok (some (record { to = dst; bytes = user_message 1 teid q.gtp_hdr inner }))
forward_user_data dst teid q inner h =
    sym (
      bind_assoc (prepend_gtp_hdr 1 1 (view q [] inner).len teid (view q [] inner)) (snd dst)
        (λ out. ok (some out)))
    ∙ ap (λ r. r >>= λ out. ok (some out)) (send_user_data dst 1 teid q inner h)

-- The switch of the loop on N3 takes user data to the sink.
abbrev s1_switch : SockAddr → Packet → Result (Option Datagram)
s1_switch sink q =
    if q.gtp_hdr.msg_type == 1
    then (do arg ← copy q; out ← handle_uplink_udata sink arg; ok (some out))
    else ok none

s1_switch-view :
    (sink : SockAddr) (q : Packet) (used inner : Bytes)
    → q.gtp_hdr.msg_type ≡ 1
    → length used + length inner ≤ buf_size
    → s1_switch sink (view q used inner) ≡ ok (some (record { to = sink; bytes = inner }))
s1_switch-view sink q used inner one h =
    let msg_type : (view q used inner).gtp_hdr.msg_type ≡ 1 =
      ap (λ (g : Gtp). g.msg_type) (gtp_hdr-view q used inner) ∙ one in
    rw (copy-view q used inner h, handle_uplink_udata-strips sink q used inner h, msg_type)

s1_round-user_message :
    (sink : SockAddr) (teid : ℕ) (h : Gtp) (inner : Bytes) (p : Packet)
    → IsGtp h
    → teid < 2 ^ 32
    → 16 + length inner ≤ buf_size
    → s1_round sink (user_message 1 teid h inner) p
      ≡ ok (some (record { to = sink; bytes = inner }))
unfolding s1_round user_hdr
s1_round-user_message sink teid h inner p r c fits =
    sym (bind_assoc (received (user_message 1 teid h inner) p) extract_gtp_hdr (s1_switch sink))
    ∙ rw (open_user_message 1 teid h inner p r (omega arith) c fits) (
        s1_switch-view sink (record p { gtp_hdr = data_hdr 1 teid h inner })
          (gtp_bytes (data_hdr 1 teid h inner)) inner refl
          (omega (arith, length-gtp_bytes (data_hdr 1 teid h inner))))

module _ (q p p' : Packet) (t : TrafficMonitor) (sink : SockAddr)
    (head src_bytes dst_bytes tail : Bytes) (at_12 : 12 ≡ length head) (four : 4 ≡ length src_bytes)
    (four_more : 4 ≡ length dst_bytes) (fits : 36 + length tail ≤ buf_size) where
  -- An IP packet with its source in the bytes 12 to 15.
  abbrev ip_packet : Bytes
  ip_packet = head ++ (src_bytes ++ (dst_bytes ++ tail))

  regroup : ip_packet ≡ (head ++ (src_bytes ++ dst_bytes)) ++ tail
  regroup = simp (append_assoc)

  src : get_src_ip_addr (view q [] ip_packet) ≡ ok (inet_ntop src_bytes)
  unfolding get_src_ip_addr view
  src =
      ap (λ bs. peek 0 20 (buffer bs) >>= λ hdr. ok (inet_ntop (take 4 (drop 12 hdr)))) regroup
      ∙ rw (
        peek-buffer 0 20 [] (head ++ (src_bytes ++ dst_bytes)) tail refl (
            omega (
              arith,
              length-append head (src_bytes ++ dst_bytes),
              length-append src_bytes dst_bytes,
            )),
        drop-append 12 head (src_bytes ++ dst_bytes) at_12,
        take-append 4 src_bytes dst_bytes four,
      )

  fits_ip : 16 + length ip_packet ≤ buf_size
  fits_ip = omega (
    arith,
    length-append head (src_bytes ++ (dst_bytes ++ tail)),
    length-append src_bytes (dst_bytes ++ tail),
    length-append dst_bytes tail,
  )

  -- An IP packet of at least 20 bytes that fits the buffer with a header, read from the tunnel
  -- device of the base station: if its source is the address of a session whose gateway has an
  -- address that inet_aton accepts, it goes to this address and the lower 16 bits of the port, a round
  -- of the gateway's N3 loop sends the same bytes to the sink, and the sink writes them to its tunnel
  -- device.
  pub handle_uplink_udata-s1_round :
      (inet_aton : Bytes → Bool) (i : UplinkInfo)
      → t.uplink_info (inet_ntop src_bytes) ≡ some i
      → inet_aton i.sgw_s1_ip_addr ≡ true
      → i.s1_uteid_ul < 2 ^ 32
      → IsGtp q.gtp_hdr
      → (out : Datagram) × (through : Datagram) × (RanTraffic.handle_uplink_udata inet_aton
            (view q [] ip_packet)
            t
          ≡ ok (some out))
        × (out.to ≡ record { ip_addr = i.sgw_s1_ip_addr; port = i.sgw_s1_port % 2 ^ 16 })
        × (s1_round sink out.bytes p ≡ ok (some through))
        × (through.to ≡ sink)
        × ((received through.bytes p' >>= Sink.handle_uplink_udata) ≡ ok ip_packet)
  unfolding RanTraffic.handle_uplink_udata RanTraffic.get_uplink_info Sink.handle_uplink_udata
      set_inet_sock_addr
  handle_uplink_udata-s1_round inet_aton i known valid c r =
      let gateway : SockAddr = record {
        ip_addr = i.sgw_s1_ip_addr;
        port = i.sgw_s1_port % 2 ^ 16;
      } in
      (
        record { to = gateway; bytes = user_message 1 i.s1_uteid_ul q.gtp_hdr ip_packet },
        record { to = sink; bytes = ip_packet },
        rw (src, known, valid) (forward_user_data gateway i.s1_uteid_ul q ip_packet fits_ip),
        refl,
        s1_round-user_message sink i.s1_uteid_ul q.gtp_hdr ip_packet p r c fits_ip,
        refl,
        rw (
          received-view ip_packet p' (omega (arith, fits_ip)),
          payload-view p' [] ip_packet (omega (arith, fits_ip)),
        ),
      )

module _ (sink_pkt q p : Packet) (u : Upf) (head dst_bytes tail : Bytes) (at_16 : 16 ≡ length head)
    (four : 4 ≡ length dst_bytes) (fits : 36 + length tail ≤ buf_size) where
  abbrev down_packet : Bytes
  down_packet = head ++ (dst_bytes ++ tail)

  fits_down : 16 + length down_packet ≤ buf_size
  fits_down = omega (arith, length-append head (dst_bytes ++ tail), length-append dst_bytes tail)

  -- An IP packet of at least 20 bytes that fits the buffer with a header, read from the tunnel
  -- device of the sink, for an address that leads to a session of an IMSI other than 0 with a base
  -- station whose address inet_aton accepts: the sink sends it to the gateway's SGi socket, a round of
  -- the gateway's loop on this socket sends it on to this address and the lower 16 bits of the port,
  -- and the base station writes the same IP packet to its tunnel device.
  pub sgi_round-handle_downlink_udata :
      (inet_aton : Bytes → Bool) (imsi : ℕ) (d : DownlinkInfo)
      → u.sgi_id (inet_ntop dst_bytes) ≡ some imsi
      → imsi ≢ 0
      → get_downlink_info imsi u ≡ some d
      → inet_aton d.enodeb_ip_addr ≡ true
      → d.s1_uteid_dl < 2 ^ 32
      → IsGtp q.gtp_hdr
      → (first : Datagram) × (out : Datagram) × (Sink.handle_downlink_udata
            (view sink_pkt [] down_packet)
          ≡ ok first)
        × (first.to ≡ g_pgw_sgi)
        × (sgi_round inet_aton first.bytes q u ≡ ok (some out))
        × (out.to ≡ record { ip_addr = d.enodeb_ip_addr; port = d.enodeb_port % 2 ^ 16 })
        × ((received out.bytes p >>= RanTraffic.handle_downlink_udata) ≡ ok down_packet)
  unfolding Sink.handle_downlink_udata snd sgi_round
  sgi_round-handle_downlink_udata inet_aton imsi d known real ready valid c r = (
    record { to = g_pgw_sgi; bytes = down_packet },
    record {
      to = record { ip_addr = d.enodeb_ip_addr; port = d.enodeb_port % 2 ^ 16 };
      bytes = user_message 2 d.s1_uteid_dl q.gtp_hdr down_packet;
    },
    rw (payload-view sink_pkt [] down_packet (omega (arith, fits_down))),
    refl,
    rw (
      received-view down_packet q (omega (arith, fits_down)),
      copy-view q [] down_packet (omega (arith, fits_down)),
      handle_downlink_udata-forwards q u head dst_bytes tail at_16 four fits inet_aton imsi d known
          real ready valid,
    ),
    refl,
    tunnel_user_message 2 d.s1_uteid_dl q.gtp_hdr down_packet p r (omega arith) c fits_down,
  )
