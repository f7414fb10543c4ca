-- ===== src/Registration.antt =====
-- A whole registration: the base station (src/ran.cpp, in the loop of src/ran_simulator.cpp) against
-- the switch of the AMF (src/amf_server.cpp), message by message. What the SMF answers to the AMF is
-- a parameter, with what the AMF relies on as a hypothesis.
pub mod Challenges
pub mod Accepts
pub mod Sessions
pub mod Legs
pub mod Station
pub mod Rounds
pub mod Answers
pub mod Outcome
use sba_g_rpc_5g.Base.{ℕ, ◌^◌, ◌≤◌, ◌<◌, ◌≡◌, refl, ap, ◌∙◌, true, some, length, take, drop}
use sba_g_rpc_5g.Packet.Numbers.{IsText}
use sba_g_rpc_5g.Rpc.{AmfSmfRequest, AmfSmfReply, new_smf_request}
use sba_g_rpc_5g.Bytes.{encode, decode}
use sba_g_rpc_5g.Security.{Openssl, IsOpenssl}
use sba_g_rpc_5g.Signals.Protected.{sealed, cipher_of}
use sba_g_rpc_5g.Amf.State.{UeContext, Amf, context, g_trafmon}
use sba_g_rpc_5g.Amf.Clients.{
  GrpcPacket, SmfServer, session_creation_fc, modify_bearer_fc, detach_fc,
}
use sba_g_rpc_5g.Ran.State.{RanContext}

-- The AMF knows a UE: its id leads to its GUTI, and the context has what the UE sent and the key `k`.
pub record IsKnown (raw : UeContext) (a : Amf) (id guti : ℕ) (r : RanContext) (k : ℕ) : Type 0 where
  pub leads : a.s1amf_id id ≡ some guti
  pub imsi : (context raw guti a).imsi ≡ r.imsi
  pub tai : (context raw guti a).tai ≡ r.tai
  pub nw_capability : (context raw guti a).nw_capability ≡ r.nw_capability
  pub ksi_asme : (context raw guti a).ksi_asme ≡ 1
  pub k_asme : (context raw guti a).k_asme ≡ k

-- The answer to a create session is about the GUTI that was asked for, its members are in the range
-- of their types, and the addresses are texts.
pub record IsSession (guti : ℕ) (reply : AmfSmfReply) : Type 0 where
  pub same : reply.guti ≡ guti
  pub s1_uteid_ul : reply.s1_uteid_ul < 2 ^ 32
  pub ue_text : IsText reply.ue_ip_addr
  pub upf_text : IsText reply.g_upf_s1_ip_addr
  pub ue_short : length reply.ue_ip_addr ≤ 15
  pub upf_short : length reply.g_upf_s1_ip_addr ≤ 15

-- What the AMF asks the SMF to create for a UE.
abbrev pub asked_of : ℕ → ℕ → ℕ → ℕ → ℕ → AmfSmfRequest
asked_of guti imsi s11 apn tai = record new_smf_request {
  guti = guti;
  msg_type = 1;
  imsi = imsi;
  s11_cteid_amf = s11;
  eps_bearer_id = 5;
  apn_in_use = apn;
  tai = tai;
}

-- The APN that the location update stores: eight bytes of the code of the base station's message.
abbrev pub apn_of : (ssl : Openssl) → IsOpenssl ssl → ℕ
apn_of ssl w = decode (take 8 (drop 4 (sealed ssl (cipher_of ssl w (encode 1 1)))))

-- An SMF that creates the session that a request asks for.
pub record Creates (smf : SmfServer) (request : AmfSmfRequest) : Type 0 where
  pub reply : AmfSmfReply
  pub answers : smf request ≡ some reply
  pub session : IsSession request.guti reply

-- An SMF that confirms the modify bearer of a GUTI with the address of the base station.
pub record Modifies (smf : SmfServer) (guti : ℕ) : Type 0 where
  pub confirm :
      (request : AmfSmfRequest)
      → request.guti ≡ guti
      → request.msg_type ≡ 2
      → request.g_trafmon_ip_addr ≡ g_trafmon.ip_addr
      → (reply : AmfSmfReply) × (smf request ≡ some reply) × (reply.res ≡ true)

-- An SMF that confirms the detach of a GUTI.
pub record Detaches (smf : SmfServer) (guti : ℕ) : Type 0 where
  pub confirm :
      (request : AmfSmfRequest)
      → request.guti ≡ guti
      → request.msg_type ≡ 3
      → (reply : AmfSmfReply) × (smf request ≡ some reply) × (reply.res ≡ true)

-- What the clients of the AMF store of it.
pub modify_bearer_fc-Modifies :
    (smf : SmfServer) (guti : ℕ) (x : GrpcPacket)
    → Modifies smf guti
    → x.guti ≡ guti
    → x.msg_type ≡ 2
    → x.g_trafmon_ip_addr ≡ g_trafmon.ip_addr
    → (modify_bearer_fc smf x).res ≡ true
unfolding modify_bearer_fc
modify_bearer_fc-Modifies smf guti x c same two here =
    let r =
      c.confirm
        (record new_smf_request {
          guti = x.guti;
          msg_type = x.msg_type;
          eps_bearer_id = x.eps_bearer_id;
          s1_uteid_dl = x.s1_uteid_dl;
          g_trafmon_ip_addr = x.g_trafmon_ip_addr;
          g_trafmon_port = x.g_trafmon_port;
        })
        same two here in
    rw r.1 r.2

pub detach_fc-Detaches :
    (smf : SmfServer) (guti : ℕ) (x : GrpcPacket)
    → Detaches smf guti
    → x.guti ≡ guti
    → x.msg_type ≡ 3
    → (detach_fc smf x).res ≡ true
unfolding detach_fc
detach_fc-Detaches smf guti x c same three =
    let r =
      c.confirm
        (record new_smf_request {
          guti = x.guti;
          msg_type = x.msg_type;
          eps_bearer_id = x.eps_bearer_id;
          tai = x.tai;
        })
        same three in
    rw r.1 r.2

-- A packet with the members of a created session, which are those of the answer.
pub record IsCreated (guti : ℕ) (reply : AmfSmfReply) (g : GrpcPacket) : Type 0 where
  pub same : g.guti ≡ guti
  pub ue_ip_addr : g.ue_ip_addr ≡ reply.ue_ip_addr
  pub teid : g.s1_uteid_ul ≡ reply.s1_uteid_ul
  pub upf_ip_addr : g.g_upf_s1_ip_addr ≡ reply.g_upf_s1_ip_addr
  pub s1_uteid_ul : g.s1_uteid_ul < 2 ^ 32
  pub ue_text : IsText g.ue_ip_addr
  pub upf_text : IsText g.g_upf_s1_ip_addr
  pub ue_short : length g.ue_ip_addr ≤ 15
  pub upf_short : length g.g_upf_s1_ip_addr ≤ 15

pub session_creation_fc-Creates :
    (smf : SmfServer) (guti imsi s11 apn tai : ℕ) (x : GrpcPacket)
    → (c : Creates smf (asked_of guti imsi s11 apn tai))
    → record new_smf_request {
      guti = x.guti;
      msg_type = x.msg_type;
      imsi = x.imsi;
      s11_cteid_amf = x.s11_cteid_amf;
      eps_bearer_id = x.eps_bearer_id;
      apn_in_use = x.apn_in_use;
      tai = x.tai;
    }
      ≡ asked_of guti imsi s11 apn tai
    → IsCreated guti c.reply (session_creation_fc smf x)
unfolding session_creation_fc
session_creation_fc-Creates smf guti imsi s11 apn tai x c same =
    let i = c.session in
    rw (ap smf same ∙ c.answers) (record {
      same = i.same;
      ue_ip_addr = refl;
      teid = refl;
      upf_ip_addr = refl;
      s1_uteid_ul = i.s1_uteid_ul;
      ue_text = i.ue_text;
      upf_text = i.upf_text;
      ue_short = i.ue_short;
      upf_short = i.upf_short;
    })
