-- ===== src/Amf/Runs.antt =====
-- The UE ids of the access and mobility management function over any run of its switch
-- (handle_ue of src/amf_server.cpp).
use sba_g_rpc_5g.Base.{
  ℕ, ◌-◌, ◌^◌, ◌<◌, ◌≡◌, refl, sym, Bool, true, false, Option, none, some, arith, ◌==◌,
  if◌then◌else◌, ◌⊎◌, inl, inr, leb, ◌||◌,
}
use sba_g_rpc_5g.Result.{ok, ◌>>=◌, bind_ok}
use sba_g_rpc_5g.Packet.{Packet, copy, extract_s1ap_hdr}
use sba_g_rpc_5g.Security.{Openssl}
use sba_g_rpc_5g.Sctp.{Segment}
use sba_g_rpc_5g.Rpc.{UdpPeer}
use sba_g_rpc_5g.Amf.State.{UeContext, Amf}
use sba_g_rpc_5g.Amf.Clients.{GrpcPacket, AusfServer, SmfServer}
use sba_g_rpc_5g.Amf.Attach.{Unset, handle_initial_attach}
use sba_g_rpc_5g.Amf.Handover.{
  request_target_ran, setup_indirect_tunnel, handle_handover_completion, teardown_indirect_tunnel,
}
use sba_g_rpc_5g.Amf.Server.{kept, unidentified, identified, handle_ue}
use sba_g_rpc_5g.Amf.Identity.{IsCounted, unused}
use sba_g_rpc_5g.Amf.Ids.{
  Grows, Keeps-Grows, Grows-trans, Grows-refl, landed, sent-Grows, kept-Grows, initial_attach-Grows,
  target_ran-Keeps, setup_tunnel-Keeps, handover-Keeps, teardown-Keeps, detach-Grows,
  authenticated-Grows, secured-Grows, attached-Grows,
}

-- A value is that of before, if it is so wherever there was one and there is one.
same_or_none :
    (x y : Option ℕ)
    → ((n : ℕ) → y ≡ some n → (x ≡ some n) ⊎ (x ≡ none))
    → (y ≡ x) ⊎ ((y ≡ none) ⊎ (x ≡ none))
same_or_none x none h = inr (inl refl)
same_or_none x (some n) h = elim (h n refl) [ inl same ↦ inl (sym same) | inr new ↦ inr (inr new) ]

-- What follows from the result of either branch follows from that of a conditional.
by_if :
    {A : Type 0} {x y r : A} (P : Type 0) (b : Bool)
    → (x ≡ r → P)
    → (y ≡ r → P)
    → (if b then x else y) ≡ r
    → P
by_if P true f g e = f e
by_if P false f g e = g e

module _ (ssl : Openssl) (raw : UeContext) (raw_grpc : GrpcPacket) (unset : Unset)
    (ausf : AusfServer) (smf : SmfServer) (upf : UdpPeer) (pkt : Packet) (a a' : Amf)
    (out : Option Segment) where
  unidentified-Grows :
      a.ue_count < 2 ^ 32 - 1
      → unidentified ssl raw raw_grpc unset ausf smf upf pkt a ≡ ok (a', out)
      → Grows a a'
  unfolding unidentified
  unidentified-Grows h e =
      by_if (Grows a a') (pkt.s1ap_hdr.msg_type == 1)
        (λ f.
          let c = bind_ok (copy pkt) _ f in
          sent-Grows a a' out (handle_initial_attach raw raw_grpc unset ausf c.0 a)
            (λ x o i. initial_attach-Grows ssl raw raw_grpc unset ausf smf upf c.0 a x o h i) c.2)
        (landed a a a' none out (Grows-refl a)) e

  tunnel_cases-Grows :
      (if pkt.s1ap_hdr.msg_type == 8
          then (do arg ← copy pkt; setup_indirect_tunnel raw upf arg a)
          else if pkt.s1ap_hdr.msg_type == 9
          then (do arg ← copy pkt; handle_handover_completion raw upf arg a)
          else if pkt.s1ap_hdr.msg_type == 10
          then (do arg ← copy pkt; teardown_indirect_tunnel raw upf arg a >>= kept)
          else kept a)
        ≡ ok (a', out)
      → Grows a a'
  tunnel_cases-Grows =
      by_if (Grows a a') (pkt.s1ap_hdr.msg_type == 8)
        (λ e.
          let c = bind_ok (copy pkt) _ e in
          Keeps-Grows a a'
            (setup_tunnel-Keeps ssl raw raw_grpc unset ausf smf upf c.0 a a' out c.2))
        (by_if (Grows a a') (pkt.s1ap_hdr.msg_type == 9)
          (λ e.
            let c = bind_ok (copy pkt) _ e in
            Keeps-Grows a a' (handover-Keeps ssl raw raw_grpc unset ausf smf upf c.0 a a' out c.2))
          (by_if (Grows a a') (pkt.s1ap_hdr.msg_type == 10)
            (λ e.
              let c = bind_ok (copy pkt) _ e in
              kept-Grows a a' out (teardown_indirect_tunnel raw upf c.0 a)
                (λ x f.
                  Keeps-Grows a x (teardown-Keeps ssl raw raw_grpc unset ausf smf upf c.0 a x f))
                c.2)
            (landed a a a' none out (Grows-refl a))))

  identified-Grows :
      identified ssl raw raw_grpc unset ausf smf upf pkt a ≡ ok (a', out) → Grows a a'
  unfolding identified
  identified-Grows =
      by_if (Grows a a') (pkt.s1ap_hdr.msg_type == 2)
        (authenticated-Grows ssl raw raw_grpc unset ausf smf upf pkt a a' out)
        (by_if (Grows a a') (pkt.s1ap_hdr.msg_type == 3)
          (secured-Grows ssl raw raw_grpc unset ausf smf upf pkt a a' out)
          (by_if (Grows a a') (pkt.s1ap_hdr.msg_type == 4)
            (attached-Grows ssl raw raw_grpc unset ausf smf upf pkt a a' out)
            (by_if (Grows a a') (pkt.s1ap_hdr.msg_type == 5)
              (λ e.
                let c = bind_ok (copy pkt) _ e in
                detach-Grows ssl raw raw_grpc unset ausf smf upf c.0 a a' out c.2)
              (by_if (Grows a a') (pkt.s1ap_hdr.msg_type == 7)
                (λ e.
                  let c = bind_ok (copy pkt) _ e in
                  sent-Grows a a' out (request_target_ran raw c.0 a)
                    (λ x o f.
                      Keeps-Grows a x
                        (target_ran-Keeps ssl raw raw_grpc unset ausf smf upf c.0 a x o f))
                    c.2)
                tunnel_cases-Grows))))

handle_ue-Grows :
    (ssl : Openssl) (raw : UeContext) (raw_grpc : GrpcPacket) (unset : Unset) (ausf : AusfServer)
    (smf : SmfServer) (upf : UdpPeer) (pkt : Packet) (a a' : Amf) (out : Option Segment)
    → a.ue_count < 2 ^ 32 - 1
    → handle_ue ssl raw raw_grpc unset ausf smf upf pkt a ≡ ok (a', out)
    → Grows a a'
unfolding handle_ue
handle_ue-Grows ssl raw raw_grpc unset ausf smf upf pkt a a' out h =
    by_if (Grows a a') (pkt.len == 0 || leb (2 ^ 31) pkt.len)
      (landed a a a' none out (Grows-refl a))
      (λ e.
        let c = bind_ok (extract_s1ap_hdr pkt) _ e in
        by_if (Grows a a') (c.0.s1ap_hdr.mme_s1ap_ue_id == 0)
          (unidentified-Grows ssl raw raw_grpc unset ausf smf upf c.0 a a' out h)
          (identified-Grows ssl raw raw_grpc unset ausf smf upf c.0 a a' out) c.2)

-- A run of the switch, on whatever packets and with whatever answers of the other functions, as long
-- as fewer than 2 ^ 32 - 1 UEs have attached.
pub data Run : Amf → Amf → Type 0 where
  stay : (a : Amf) → Run a a
  turn :
      (ssl : Openssl) (raw : UeContext) (raw_grpc : GrpcPacket) (unset : Unset) (ausf : AusfServer)
      (smf : SmfServer) (upf : UdpPeer) (pkt : Packet) (a b c : Amf) (out : Option Segment)
      → Run a b
      → b.ue_count < 2 ^ 32 - 1
      → handle_ue ssl raw raw_grpc unset ausf smf upf pkt b ≡ ok (c, out)
      → Run a c

Run-Grows : (a b : Amf) → Run a b → Grows a b
Run-Grows a b (stay _) = Grows-refl a
Run-Grows a c (turn ssl raw raw_grpc unset ausf smf upf pkt _ b _ out r h e) =
    Grows-trans a b c (Run-Grows a b r)
      (handle_ue-Grows ssl raw raw_grpc unset ausf smf upf pkt b c out h e)

-- However the switch runs, with fewer than 2 ^ 32 - 1 UEs before each turn, from a state where the
-- ids in use have been given out: in the state that it comes to they have too, and every id leads to
-- what it led to, or has been removed, or is new. So no id comes to lead to another UE.
pub Run-IsCounted :
    (a b : Amf)
    → IsCounted a
    → Run a b
    → IsCounted b
      × ((id : ℕ)
          → (b.s1amf_id id ≡ a.s1amf_id id) ⊎ ((b.s1amf_id id ≡ none) ⊎ (a.s1amf_id id ≡ none)))
Run-IsCounted a b w r =
    let g = Run-Grows a b r in
    (
      record { counted = λ id guti e. ground (arith, g.old id guti e, w.counted id guti, g.count) },
      λ id. same_or_none (a.s1amf_id id) (b.s1amf_id id) (λ guti e. elim (g.old id guti e) [
        | inl old ↦ inl old
        | inr new ↦ inr (unused id (a.s1amf_id id) (λ n f. omega (arith, w.counted id n f, new.0)))
      ]),
    )
