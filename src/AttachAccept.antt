-- ===== src/AttachAccept.antt =====
-- The end of the attach: the AMF's attach accept (Amf::handle_create_session, src/amf.cpp), what the
-- base station does with it (Ran::set_eps_session, src/ran.cpp) and the attach complete on its way
-- back (Amf::handle_attach_complete).
use sba_g_rpc_5g.Base.{
  nonzero, ℕ, ◌%◌, ◌^◌, ◌≤◌, ◌<◌, ◌≡◌, ◌≢◌, ap, ◌∙◌, true, false, some, [], ◌∷◌, length, arith,
}
use sba_g_rpc_5g.Result.{ok, ◌>>=◌}
use sba_g_rpc_5g.Bytes.{Bytes, encode}
use sba_g_rpc_5g.Packet.{
  Packet, S1ap, s1ap_bytes, extract_s1ap_hdr, extract_u8, extract_u32, s1ap_init,
}
use sba_g_rpc_5g.Packet.View.{view, s1ap_hdr-view}
use sba_g_rpc_5g.Packet.Transport.{IsS1ap, length-s1ap_bytes, s1ap_init-IsS1ap}
use sba_g_rpc_5g.Packet.Numbers.{extract_number-view}
use sba_g_rpc_5g.UnorderedMap.{bytes_key}
use sba_g_rpc_5g.Security.{Openssl, IsOpenssl}
use sba_g_rpc_5g.Sctp.{Segment, requester}
use sba_g_rpc_5g.Signals.{
  signal_hdr, signal, frame, deliver, deliver-frame, read_signal, length-signal,
}
use sba_g_rpc_5g.Signals.Protected.{sealed, cipher_of, cipher_short, length-sealed, open_sealed}
use sba_g_rpc_5g.Amf.State.{UeContext, Amf, context, set_context}
use sba_g_rpc_5g.Amf.State
use sba_g_rpc_5g.Amf.Clients.{GrpcPacket}
use sba_g_rpc_5g.Amf.Session.{handle_attach_complete}
use sba_g_rpc_5g.Amf.Replies.{accept_body, length-accept_body}
use sba_g_rpc_5g.Ran.State.{RanContext, Ran, got_nothing}
use sba_g_rpc_5g.Ran.Traffic.{TrafficMonitor, update_uplink_info}
use sba_g_rpc_5g.Ran.Session.{set_eps_session, attached}
use sba_g_rpc_5g.Ran.Accepted.{
  IsAccept, accepted, read_accept_lem, complete_body, complete_attach_lem,
}

-- A header whose ids and padding are in the range of their types.
abbrev pub IsSignalHdr : ℕ → ℕ → S1ap → Type 0
IsSignalHdr e m h = (e < 2 ^ 32) × (m < 2 ^ 32) × (h.pad < 2 ^ 8)

pub signal_hdr-IsS1ap :
    (msg_type e m : ℕ) (h : S1ap) (body : Bytes)
    → msg_type < 2 ^ 8
    → IsSignalHdr e m h
    → IsS1ap (signal_hdr msg_type e m h body)
unfolding signal_hdr
signal_hdr-IsS1ap msg_type e m h body a k =
    s1ap_init-IsS1ap msg_type (length body % 2 ^ 16) e m h a (omega arith) k.0 k.1 k.2

pub something :
    (p : Packet) (bytes : Bytes)
    → 0 < length bytes
    → length bytes < 2 ^ 31
    → got_nothing (view p [] bytes) ≡ false
unfolding got_nothing view
something p bytes a h = ground arith

module _ (ssl : Openssl) (w : IsOpenssl ssl) (g : GrpcPacket) (c : UeContext) (tai : ℕ)
    (m : IsAccept g c tai) where
  pub sealed_small : length (sealed ssl (cipher_of ssl w (accept_body g c tai))) ≤ 123
  sealed_small = omega (
    arith,
    length-sealed ssl w (cipher_of ssl w (accept_body g c tai)),
    cipher_short ssl w (accept_body g c tai),
    length-accept_body g c tai,
    m.ue_short,
    m.upf_short,
  )

  -- The content of the message is read and answered, whatever packet it is received in.
  pub set_eps_session_lem :
      (e i : ℕ) (h : S1ap) (p : Packet) (r : Ran) (t : TrafficMonitor)
      → IsSignalHdr e i h
      → let body = sealed ssl (cipher_of ssl w (accept_body g c tai)) in
        let r' = accepted g c tai r in
        set_eps_session ssl r (view p [] (signal 3 e i h body)) t
        ≡ ok (
          attached r',
          update_uplink_info g.ue_ip_addr g.s1_uteid_ul g.g_upf_s1_ip_addr 7100 t,
          (record {
            to = requester;
            bytes = frame (
                signal 4 r.ran_ctx.enodeb_s1ap_ue_id r.ran_ctx.mme_s1ap_ue_id
                  (signal_hdr 3 e i h body)
                  (sealed ssl (cipher_of ssl w (complete_body r'.ran_ctx))));
          })
              ∷ [],
          true,
        )
  unfolding set_eps_session accepted
  set_eps_session_lem e i h p r t k =
      let body = sealed ssl (cipher_of ssl w (accept_body g c tai)) in
      let hdr = signal_hdr 3 e i h body in
      let p' : Packet = record p { s1ap_hdr = hdr } in
      let r' = accepted g c tai r in
      let small = sealed_small in
      let read = read_accept_lem g c tai m r p' in
      rw
        (
          something p (signal 3 e i h body) (omega (arith, length-signal 3 e i h body))
              (omega (arith, small, length-signal 3 e i h body)),
          read_signal 3 e i h body p (signal_hdr-IsS1ap 3 e i h body (omega arith) k),
          open_sealed ssl w p' (s1ap_bytes hdr) (accept_body g c tai) (
              omega (
                arith,
                length-s1ap_bytes hdr,
                length-accept_body g c tai,
                m.ue_short,
                m.upf_short,
              )),
          read.1,
        )
        (rw read.2 at (complete_attach_lem ssl w r' read.0 t))

-- The attach complete at the AMF, of a UE with the GUTI `guti`.
pub handle_attach_complete_lem :
    (ssl : Openssl) (w : IsOpenssl ssl) (raw : UeContext) (q : Packet) (used : Bytes) (a : Amf)
    (guti : ℕ) (c : RanContext)
    → a.s1amf_id q.s1ap_hdr.mme_s1ap_ue_id ≡ some guti
    → guti ≢ 0
    → c.eps_bearer_id < 2 ^ 8
    → c.s1_uteid_ul < 2 ^ 32
    → length used ≤ 12
    → handle_attach_complete ssl raw
        (view q used (sealed ssl (cipher_of ssl w (complete_body c))))
        a
      ≡ ok (
          set_context guti
            (record (context raw guti a) { s1_uteid_dl = c.s1_uteid_ul; emm_state = 1 })
            a)
unfolding handle_attach_complete State.get_guti extract_u8 extract_u32
handle_attach_complete_lem ssl w raw q used a guti c known real he ht short =
    let body = sealed ssl (cipher_of ssl w (complete_body c)) in
    let id : a.s1amf_id (view q used body).s1ap_hdr.mme_s1ap_ue_id ≡ some guti =
      ap (λ (h : S1ap). a.s1amf_id h.mme_s1ap_ue_id) (s1ap_hdr-view q used body) ∙ known in
    rw (
      id,
      nonzero guti real,
      open_sealed ssl w q used (complete_body c) (omega arith),
      extract_number-view 1 c.eps_bearer_id q [] (encode 4 c.s1_uteid_ul) he,
      extract_number-view 4 c.s1_uteid_ul q (encode 1 c.eps_bearer_id) [] ht,
    )

module _ (ssl : Openssl) (w : IsOpenssl ssl) (g : GrpcPacket) (c : UeContext) (tai : ℕ)
    (m : IsAccept g c tai) (listed : c.tai_list ≡ tai ∷ []) (pkt p : Packet) (r : Ran)
    (t : TrafficMonitor)
    (k : IsSignalHdr pkt.s1ap_hdr.enodeb_s1ap_ue_id pkt.s1ap_hdr.mme_s1ap_ue_id pkt.s1ap_hdr) where
  -- The header of the attach accept.
  abbrev pub accept_hdr : S1ap
  accept_hdr =
      signal_hdr 3 pkt.s1ap_hdr.enodeb_s1ap_ue_id pkt.s1ap_hdr.mme_s1ap_ue_id pkt.s1ap_hdr
        (sealed ssl (cipher_of ssl w (accept_body g c tai)))

  abbrev pub complete : Segment
  complete = record {
    to = requester;
    bytes = frame (
        signal 4 r.ran_ctx.enodeb_s1ap_ue_id r.ran_ctx.mme_s1ap_ue_id accept_hdr
          (sealed ssl (cipher_of ssl w (complete_body (accepted g c tai r).ran_ctx))));
  }

  -- The attach complete that the base station sends on it, delivered to the AMF: for a UE id of the
  -- base station's context that leads to a GUTI other than 0, the context of this GUTI gets the
  -- uplink TEID of the accept as downlink TEID and is registered; nothing else in it changes.
  handle_attach_complete-set_eps_session :
      (raw : UeContext) (a : Amf) (guti : ℕ) (p' : Packet)
      → r.ran_ctx.enodeb_s1ap_ue_id < 2 ^ 32
      → r.ran_ctx.mme_s1ap_ue_id < 2 ^ 32
      → a.s1amf_id r.ran_ctx.mme_s1ap_ue_id ≡ some guti
      → guti ≢ 0
      → (deliver complete p' >>= λ p1.
          extract_s1ap_hdr p1 >>= λ p2. handle_attach_complete ssl raw p2 a)
        ≡ ok (
            set_context guti
              (record (context raw guti a) { s1_uteid_dl = g.s1_uteid_ul; emm_state = 1 })
              a)
  unfolding accepted signal_hdr s1ap_init
  handle_attach_complete-set_eps_session raw a guti p' he hm known real =
      let body = sealed ssl (cipher_of ssl w (complete_body (accepted g c tai r).ran_ctx)) in
      let e = r.ran_ctx.enodeb_s1ap_ue_id in
      let i = r.ran_ctx.mme_s1ap_ue_id in
      let n = length-signal 4 e i accept_hdr body in
      let short =
        length-sealed ssl w (cipher_of ssl w (complete_body (accepted g c tai r).ran_ctx)) in
      let shorter = cipher_short ssl w (complete_body (accepted g c tai r).ran_ctx) in
      let hdr = signal_hdr 4 e i accept_hdr body in
      rw
        (
          deliver-frame requester (signal 4 e i accept_hdr body) p' (omega (arith, n))
              (omega (arith, n, short, shorter)),
          read_signal 4 e i accept_hdr body p'
              (signal_hdr-IsS1ap 4 e i accept_hdr body (omega arith) (he, hm, k.2)),
        )
        (handle_attach_complete_lem ssl w raw (record p' { s1ap_hdr = hdr }) (s1ap_bytes hdr) a guti
          (accepted g c tai r).ran_ctx known real (omega arith) m.s1_uteid_ul
          (omega (arith, length-s1ap_bytes hdr)))
