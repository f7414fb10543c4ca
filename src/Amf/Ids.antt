-- ===== src/Amf/Ids.antt =====
-- What the handlers of the access and mobility management function do to the UE ids (src/amf.cpp,
-- src/amf_server.cpp).
use sba_g_rpc_5g.Base.{
  ℕ, ◌-◌, ◌^◌, ◌≤◌, ◌<◌, ◌≡◌, refl, sym, ap, ◌∙◌, Bool, Option, none, some, arith, ◌⊎◌, inl, inr,
  Bool-cases,
}
use mathlib.Core.Path.{subst}
use sba_g_rpc_5g.Result.{Result, ok, ◌>>=◌, bind_ok}
use sba_g_rpc_5g.Packet.{Packet, copy}
use sba_g_rpc_5g.UnorderedMap.{nat_key}
use sba_g_rpc_5g.Security.{Openssl}
use sba_g_rpc_5g.Sctp.{Segment}
use sba_g_rpc_5g.Rpc.{UdpPeer}
use sba_g_rpc_5g.Amf.State.{
  UeContext, Amf, set_upf_info, set_crypt_context, set_integrity_context, rem_itfid, rem_uectx,
}
use sba_g_rpc_5g.Amf.Clients.{GrpcPacket, AusfServer, SmfServer}
use sba_g_rpc_5g.Amf.Attach.{
  Unset, register, store_keys, handle_initial_attach, handle_autn, handle_security_mode_cmd,
  handle_security_mode_complete, handle_location_update,
}
use sba_g_rpc_5g.Amf.Session.{
  handle_create_session, handle_attach_complete, handle_modify_bearer, confirm_detach,
  handle_detach,
}
use sba_g_rpc_5g.Amf.Handover.{
  request_target_ran, setup_indirect_tunnel, handle_handover_completion, teardown_indirect_tunnel,
}
use sba_g_rpc_5g.Amf.Server.{sent, kept, authenticated, secured, attached}

-- The ids are those of before and the count is.
pub record Keeps (a a' : Amf) : Type 0 where
  pub ids : a'.s1amf_id ≡ a.s1amf_id
  pub count : a'.ue_count ≡ a.ue_count

-- Every id is one of before, for the same GUTI, or has been given out since.
pub record Grows (a a' : Amf) : Type 0 where
  pub count : a.ue_count ≤ a'.ue_count
  pub old :
      (id guti : ℕ)
      → a'.s1amf_id id ≡ some guti
      → (a.s1amf_id id ≡ some guti) ⊎ ((a.ue_count < id) × (id ≤ a'.ue_count))

pub Keeps-Grows : (a a' : Amf) → Keeps a a' → Grows a a'
Keeps-Grows a a' k = record {
  count = omega (arith, k.count);
  old = λ id guti e. inl (ap (λ (m : ℕ → Option ℕ). m id) (sym k.ids) ∙ e);
}

pub Grows-refl : (b : Amf) → Grows b b
Grows-refl b = Keeps-Grows b b (record { ids = refl; count = refl })

pub Grows-trans : (a b c : Amf) → Grows a b → Grows b c → Grows a c
Grows-trans a b c g h = record {
  count = omega (arith, g.count, h.count);
  old = λ id guti e. ground (arith, g.count, h.count, h.old id guti e, g.old id guti);
}

module _ (ssl : Openssl) (raw : UeContext) (raw_grpc : GrpcPacket) (unset : Unset)
    (ausf : AusfServer) (smf : SmfServer) (upf : UdpPeer) (pkt : Packet) (a a' : Amf) where
  pub initial_attach-Grows :
      (out : Segment)
      → a.ue_count < 2 ^ 32 - 1
      → handle_initial_attach raw raw_grpc unset ausf pkt a ≡ ok (a', out)
      → Grows a a'
  unfolding handle_initial_attach register store_keys
  initial_attach-Grows out h e = record {
    count = ground (arith, h, e);
    old = λ id guti known. ground (arith, h, e, known);
  }

  pub autn-Keeps : (res : Bool) → handle_autn raw pkt a ≡ ok (a', res) → Keeps a a'
  unfolding handle_autn
  autn-Keeps res e = record { ids = ground (arith, e); count = ground (arith, e) }

  pub security_mode_cmd-Keeps :
      (out : Segment) → handle_security_mode_cmd ssl raw pkt a ≡ ok (a', out) → Keeps a a'
  unfolding handle_security_mode_cmd set_crypt_context set_integrity_context
  security_mode_cmd-Keeps out e = record { ids = ground (arith, e); count = ground (arith, e) }

  pub security_mode_complete-Keeps :
      (res : Bool) → handle_security_mode_complete ssl raw pkt a ≡ ok (a', res) → Keeps a a'
  unfolding handle_security_mode_complete
  security_mode_complete-Keeps res e = record { ids = ground (arith, e); count = ground (arith, e) }

  pub location_update-Keeps : handle_location_update raw raw_grpc ausf pkt a ≡ ok a' → Keeps a a'
  unfolding handle_location_update
  location_update-Keeps e = record { ids = ground (arith, e); count = ground (arith, e) }

  pub create_session-Keeps :
      (out : Segment) → handle_create_session ssl raw raw_grpc smf pkt a ≡ ok (a', out) → Keeps a a'
  unfolding handle_create_session set_upf_info
  create_session-Keeps out e = record { ids = ground (arith, e); count = ground (arith, e) }

  pub attach_complete-Keeps : handle_attach_complete ssl raw pkt a ≡ ok a' → Keeps a a'
  unfolding handle_attach_complete
  attach_complete-Keeps e = record { ids = ground (arith, e); count = ground (arith, e) }

  pub modify_bearer-Keeps : handle_modify_bearer raw raw_grpc smf pkt a ≡ ok a' → Keeps a a'
  unfolding handle_modify_bearer
  modify_bearer-Keeps e = record { ids = ground (arith, e); count = ground (arith, e) }

  pub target_ran-Keeps : (out : Segment) → request_target_ran raw pkt a ≡ ok (a', out) → Keeps a a'
  unfolding request_target_ran
  target_ran-Keeps out e = record { ids = ground (arith, e); count = ground (arith, e) }

  pub setup_tunnel-Keeps :
      (out : Option Segment) → setup_indirect_tunnel raw upf pkt a ≡ ok (a', out) → Keeps a a'
  unfolding setup_indirect_tunnel
  setup_tunnel-Keeps out e = record { ids = ground (arith, e); count = ground (arith, e) }

  pub handover-Keeps :
      (out : Option Segment) → handle_handover_completion raw upf pkt a ≡ ok (a', out) → Keeps a a'
  unfolding handle_handover_completion
  handover-Keeps out e = record { ids = ground (arith, e); count = ground (arith, e) }

  pub teardown-Keeps : teardown_indirect_tunnel raw upf pkt a ≡ ok a' → Keeps a a'
  unfolding teardown_indirect_tunnel
  teardown-Keeps e = record { ids = ground (arith, e); count = ground (arith, e) }

  pub detach-Grows :
      (out : Option Segment) → handle_detach ssl raw raw_grpc smf pkt a ≡ ok (a', out) → Grows a a'
  unfolding handle_detach confirm_detach rem_itfid rem_uectx
  detach-Grows out e = record {
    count = ground (arith, e);
    old = λ id guti known. ground (arith, e, known);
  }

-- The state that is handed on.
pub landed :
    (a b a' : Amf) (to out : Option Segment)
    → Grows a b
    → ◌≡◌ {A = Result (Amf × Option Segment)} (ok (b, to)) (ok (a', out))
    → Grows a a'
landed a b a' to out g e = let same : b ≡ a' = cc in subst (Grows a) same g

module _ (a a' : Amf) (out : Option Segment) where
  pub sent-Grows :
      (x : Result (Amf × Segment))
      → ((b : Amf) (o : Segment) → x ≡ ok (b, o) → Grows a b)
      → (x >>= sent) ≡ ok (a', out)
      → Grows a a'
  sent-Grows x h e =
      let m = bind_ok x _ e in landed a m.0.0 a' (some m.0.1) out (h m.0.0 m.0.1 m.1) m.2

  pub kept-Grows :
      (x : Result Amf)
      → ((b : Amf) → x ≡ ok b → Grows a b)
      → (x >>= kept) ≡ ok (a', out)
      → Grows a a'
  kept-Grows x h e = let m = bind_ok x _ e in landed a m.0 a' none out (h m.0 m.1) m.2

module _ (ssl : Openssl) (raw : UeContext) (raw_grpc : GrpcPacket) (unset : Unset)
    (ausf : AusfServer) (smf : SmfServer) (upf : UdpPeer) (pkt : Packet) (a a' : Amf)
    (out : Option Segment) where
  pub authenticated-Grows :
      authenticated ssl raw raw_grpc unset ausf smf upf pkt a ≡ ok (a', out) → Grows a a'
  unfolding authenticated
  authenticated-Grows e =
      let c = bind_ok (copy pkt) _ e in
      let t = bind_ok (handle_autn raw c.0 a) _ c.2 in
      let b = t.0.0 in
      let first : Grows a b =
        Keeps-Grows a b (autn-Keeps ssl raw raw_grpc unset ausf smf upf c.0 a b t.0.1 t.1) in
      elim (Bool-cases t.0.1) [
        | inl y ↦ Grows-trans a b a' first (
            sent-Grows b a' out (handle_security_mode_cmd ssl raw c.0 b)
              (λ x o f.
                Keeps-Grows b x
                  (security_mode_cmd-Keeps ssl raw raw_grpc unset ausf smf upf c.0 b x o f))
              (rw y at t.2))
        | inr n ↦ landed a b a' none out first (rw n at t.2)
      ]

  pub secured-Grows : secured ssl raw raw_grpc unset ausf smf upf pkt a ≡ ok (a', out) → Grows a a'
  unfolding secured
  secured-Grows e =
      let c = bind_ok (copy pkt) _ e in
      let t = bind_ok (handle_security_mode_complete ssl raw c.0 a) _ c.2 in
      let b = t.0.0 in
      let first : Grows a b =
        Keeps-Grows a b
          (security_mode_complete-Keeps ssl raw raw_grpc unset ausf smf upf c.0 a b t.0.1 t.1) in
      elim (Bool-cases t.0.1) [
        | inl y ↦
            let l = bind_ok (handle_location_update raw raw_grpc ausf c.0 b) _ (rw y at t.2) in
            Grows-trans a b a' first (
              Grows-trans b l.0 a'
                (Keeps-Grows b l.0
                  (location_update-Keeps ssl raw raw_grpc unset ausf smf upf c.0 b l.0 l.1))
                (sent-Grows l.0 a' out (handle_create_session ssl raw raw_grpc smf c.0 l.0)
                  (λ x o f.
                    Keeps-Grows l.0 x
                      (create_session-Keeps ssl raw raw_grpc unset ausf smf upf c.0 l.0 x o f))
                  l.2))
        | inr n ↦ landed a b a' none out first (rw n at t.2)
      ]

  pub attached-Grows :
      attached ssl raw raw_grpc unset ausf smf upf pkt a ≡ ok (a', out) → Grows a a'
  unfolding attached
  attached-Grows e =
      let c = bind_ok (copy pkt) _ e in
      let t = bind_ok (handle_attach_complete ssl raw c.0 a) _ c.2 in
      Grows-trans a t.0 a'
        (Keeps-Grows a t.0
          (attach_complete-Keeps ssl raw raw_grpc unset ausf smf upf c.0 a t.0 t.1))
        (kept-Grows t.0 a' out (handle_modify_bearer raw raw_grpc smf c.0 t.0)
          (λ x f.
            Keeps-Grows t.0 x (modify_bearer-Keeps ssl raw raw_grpc unset ausf smf upf c.0 t.0 x f))
          t.2)
