-- ===== src/Registration/Accepts.antt =====
-- The AMF on the answer to its security mode command: it asks the AUSF and the SMF, and accepts
-- (src/amf.cpp, src/amf_server.cpp).
use sba_g_rpc_5g.Base.{
  nonzero, ℕ, ◌^◌, ◌≤◌, ◌<◌, ◌≡◌, ◌≢◌, sym, ap, ◌∙◌, some, [], ◌∷◌, ◌++◌, length, arith, take, drop,
  length-take, length-drop, take-append-drop,
}
use sba_g_rpc_5g.Result.{ok}
use sba_g_rpc_5g.Bytes.{Bytes, decode}
use sba_g_rpc_5g.Packet.{
  Packet, extract_bytes, extract_number, extract_u64, extract_diameter_hdr, diameter_of_bytes,
}
use sba_g_rpc_5g.Packet.View.{view, extract_bytes-view}
use sba_g_rpc_5g.UnorderedMap.{nat_key}
use sba_g_rpc_5g.Security.{Openssl, IsOpenssl}
use sba_g_rpc_5g.Sctp.{requester}
use sba_g_rpc_5g.Signals.{signal, frame}
use sba_g_rpc_5g.Signals.Protected.{sealed, cipher_of}
use sba_g_rpc_5g.Amf.State.{UeContext, Amf, context, set_context, set_upf_info, get_s11cteidamf}
use sba_g_rpc_5g.Amf.State
use sba_g_rpc_5g.Amf.Clients.{GrpcPacket, AusfServer, SmfServer, session_creation_fc}
use sba_g_rpc_5g.Amf.Attach.{handle_location_update}
use sba_g_rpc_5g.Amf.Session.{handle_create_session, create_grpc, accept}
use sba_g_rpc_5g.Amf.Replies.{accept_body, attach_accept_lem}
use sba_g_rpc_5g.Ran.State.{RanContext}
use sba_g_rpc_5g.Ran.Accepted.{IsAccept}
use sba_g_rpc_5g.Registration.{IsKnown, asked_of, Creates, IsCreated, session_creation_fc-Creates}

-- Any bytes that are there can be extracted.
extract_bytes-there :
    (n : ℕ) (q : Packet) (used rest : Bytes)
    → n ≤ length rest
    → extract_bytes n (view q used rest)
      ≡ ok (take n rest, view q (used ++ take n rest) (drop n rest))
extract_bytes-there n q used rest h =
    ap (λ bs. extract_bytes n (view q used bs)) (sym (take-append-drop n rest))
    ∙ extract_bytes-view n q used (take n rest) (drop n rest) (sym (length-take n rest h))

-- The location update stores some APN, whatever the 12 bytes are that it takes for a header and one.
pub handle_location_update_lem :
    (raw : UeContext) (raw_grpc : GrpcPacket) (ausf : AusfServer) (q : Packet) (used rest : Bytes)
    (a : Amf) (guti : ℕ)
    → a.s1amf_id q.s1ap_hdr.mme_s1ap_ue_id ≡ some guti
    → guti ≢ 0
    → 12 ≤ length rest
    → let apn = decode (take 8 (drop 4 rest)) in
      handle_location_update raw raw_grpc ausf (view q used rest) a
      ≡ ok
          (set_context guti (record (context raw guti a) { default_apn = apn; apn_in_use = apn }) a)
unfolding handle_location_update extract_diameter_hdr extract_u64 extract_number State.get_guti view
handle_location_update_lem raw raw_grpc ausf q used rest a guti known real long =
    let q' : Packet = record q { diameter_hdr = diameter_of_bytes (take 4 rest) } in
    rw (
      known,
      nonzero guti real,
      extract_bytes-there 4 q used rest (omega arith),
      extract_bytes-there 8 q' (used ++ take 4 rest) (drop 4 rest)
          (omega (arith, length-drop 4 rest)),
    )

-- The create session, where the SMF creates: what is asked, what the answer holds and what is stored.
module _ (raw : UeContext) (raw_grpc : GrpcPacket) (smf : SmfServer) (a : Amf) (guti s11 : ℕ) where
  abbrev prepared : Amf
  prepared = set_upf_info raw guti a

  abbrev asking : UeContext
  asking = record (context raw guti prepared) { s11_cteid_amf = s11; eps_bearer_id = 5 }

  abbrev asked : Amf
  asked = set_context guti asking prepared

  abbrev pub created : GrpcPacket
  created = session_creation_fc smf (create_grpc raw_grpc guti asking)

  abbrev pub accepting : UeContext
  accepting = accept created (context raw created.guti asked)

  abbrev pub accepted_by : Amf
  accepted_by = record (set_context created.guti accepting asked) {
    g_upf_s1_ip_addr = created.g_upf_s1_ip_addr;
  }

  module _ (id key apn : ℕ) (r : RanContext) (k : IsKnown raw a id guti r key)
      (stored : (context raw guti a).apn_in_use ≡ apn)
      (creates : Creates smf (asked_of guti r.imsi s11 apn r.tai)) where
    kept_imsi : asking.imsi ≡ r.imsi
    unfolding set_upf_info
    kept_imsi = ground arith ∙ k.imsi

    kept_apn : asking.apn_in_use ≡ apn
    unfolding set_upf_info
    kept_apn = ground arith ∙ stored

    kept_area : asking.tai ≡ r.tai
    unfolding set_upf_info
    kept_area = ground arith ∙ k.tai

    pub created-IsCreated : IsCreated guti creates.reply created
    unfolding create_grpc
    created-IsCreated =
        session_creation_fc-Creates smf guti r.imsi s11 apn r.tai (create_grpc raw_grpc guti asking)
          creates
          (ap (λ i. asked_of guti i s11 asking.apn_in_use asking.tai) kept_imsi
            ∙ (ap (λ n. asked_of guti r.imsi s11 n asking.tai) kept_apn
                ∙ ap (λ t. asked_of guti r.imsi s11 apn t) kept_area))

    -- Every context that is read is that of the GUTI.
    one_context : (x : ℕ) → x ≡ guti → context raw x asked ≡ asking
    one_context x same = ground (arith, same)

    kept_tai : (context raw created.guti asked).tai ≡ r.tai
    unfolding set_upf_info
    kept_tai =
        ap (λ (c : UeContext). c.tai) (one_context created.guti created-IsCreated.same)
        ∙ (ground arith ∙ k.tai)

    kept_key : (context raw created.guti asked).k_asme ≡ key
    unfolding set_upf_info
    kept_key =
        ap (λ (c : UeContext). c.k_asme) (one_context created.guti created-IsCreated.same)
        ∙ (ground arith ∙ k.k_asme)

    kept_nw : (context raw created.guti asked).nw_capability ≡ r.nw_capability
    unfolding set_upf_info
    kept_nw =
        ap (λ (c : UeContext). c.nw_capability) (one_context created.guti created-IsCreated.same)
        ∙ (ground arith ∙ k.nw_capability)

    pub listed : accepting.tai_list ≡ r.tai ∷ []
    unfolding accept
    listed = ap (λ n. n ∷ []) kept_tai

    pub accepting-IsAccept :
        guti < 2 ^ 64
        → key < 2 ^ 64
        → r.tai < 2 ^ 64
        → r.nw_capability < 2 ^ 16
        → IsAccept created accepting r.tai
    unfolding accept
    accepting-IsAccept hg hk ht hn =
        let i = created-IsCreated in
        let same = one_context created.guti i.same in
        record {
          guti = omega (arith, i.same, hg);
          e_rab_id = omega (arith, ap (λ (c : UeContext). c.eps_bearer_id) same);
          s1_uteid_ul = i.s1_uteid_ul;
          k_enodeb = omega (arith, kept_key, hk);
          nw_capability = omega (arith, kept_nw, hn);
          area = ht;
          tau_timer = omega arith;
          ue_text = i.ue_text;
          upf_text = i.upf_text;
          ue_short = i.ue_short;
          upf_short = i.upf_short;
        }

    pub handle_create_session_lem :
        (ssl : Openssl) (w : IsOpenssl ssl) (q : Packet)
        → a.s1amf_id q.s1ap_hdr.mme_s1ap_ue_id ≡ some guti
        → guti ≢ 0
        → get_s11cteidamf guti ≡ ok s11
        → handle_create_session ssl raw raw_grpc smf q a
          ≡ ok (
            accepted_by,
            record {
              to = requester;
              bytes = frame (
                  signal 3 q.s1ap_hdr.enodeb_s1ap_ue_id q.s1ap_hdr.mme_s1ap_ue_id q.s1ap_hdr
                    (sealed ssl (cipher_of ssl w (accept_body created accepting r.tai))));
            },
          )
    unfolding handle_create_session State.get_guti
    handle_create_session_lem ssl w q known real teid =
        let i = created-IsCreated in
        rw (
          known,
          nonzero guti real,
          teid,
          attach_accept_lem ssl w created accepting r.tai listed i.ue_text i.upf_text i.ue_short
              i.upf_short q,
        )
