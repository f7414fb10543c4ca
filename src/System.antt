-- ===== src/System.antt =====
-- The whole control plane: the base station and the load generator (src/ran.cpp,
-- src/ran_simulator.cpp), the switch of the AMF (src/amf_server.cpp), the service of the SMF
-- (src/smf_server.cpp) and the receive loop of the UPF (src/upf_server.cpp), for one registration.
pub mod Joined
use sba_g_rpc_5g.Base.{
  ℕ, ◌+◌, ◌-◌, ◌%◌, ◌^◌, ◌≤◌, ◌<◌, ◌≡◌, ◌≢◌, refl, sym, ap, ◌∙◌, true, Option, none, some, [], ◌++◌,
  length, arith, take, drop, length-take, length-drop, length-append,
}
use mathlib.Core.Path.{subst}
use sba_g_rpc_5g.Result.{Result, ok, fault}
use sba_g_rpc_5g.Bytes.{Bytes, AllBytes-take-drop, decode-AllBytes, encode}
use sba_g_rpc_5g.Packet.{Packet, new_packet}
use sba_g_rpc_5g.Packet.Numbers.{IsText}
use sba_g_rpc_5g.Packet.Transport.{IsGtp}
use sba_g_rpc_5g.Security.{Openssl, IsOpenssl}
use sba_g_rpc_5g.Signals.Protected.{sealed, cipher_of}
use sba_g_rpc_5g.Net.{SockAddr}
use sba_g_rpc_5g.UnorderedMap.{put, nat_key}
use sba_g_rpc_5g.Rpc.{AmfSmfRequest, AmfSmfReply, new_smf_request, new_smf_reply, UdpPeer}
use sba_g_rpc_5g.Amf.State.{g_trafmon}
use sba_g_rpc_5g.Amf.Clients.{SmfServer}
use sba_g_rpc_5g.Smf.State.{Smf}
use sba_g_rpc_5g.Smf.State as SmfState
use sba_g_rpc_5g.Smf.Handlers.{amf_smf_interaction, create_reply, answered}
use sba_g_rpc_5g.Smf.Handlers as SmfHandlers
use sba_g_rpc_5g.Upf.State.{UeContext, Upf}
use sba_g_rpc_5g.UpfPeer.{upf_peer}
use sba_g_rpc_5g.Core.{IsCreatable, u1, s1, d1, created, u2, s2, modified, detached}
use sba_g_rpc_5g.Registration.{asked_of, apn_of, Creates, Modifies, Detaches}

-- What the client of a call gets.
served : Result (Smf × AmfSmfReply) → Option AmfSmfReply
served (ok (s, reply)) = some reply
served (fault e) = none

-- The service of the SMF in the state `s`.
unfoldable pub smf_server : SmfState.UeContext → Packet → UdpPeer → Smf → SmfServer
unfolding served
smf_server smf_raw fresh peer s request = served (amf_smf_interaction smf_raw fresh peer request s)

pub smf_server-amf_smf_interaction :
    (smf_raw : SmfState.UeContext) (fresh : Packet) (peer : UdpPeer) (s s' : Smf)
    (request : AmfSmfRequest) (reply : AmfSmfReply)
    → amf_smf_interaction smf_raw fresh peer request s ≡ ok (s', reply)
    → smf_server smf_raw fresh peer s request ≡ some reply
unfolding smf_server served
smf_server-amf_smf_interaction smf_raw fresh peer s s' request reply e = ap served e

-- The modify bearer and the detach that the AMF asks for.
abbrev pub modify_of : ℕ → ℕ → ℕ → AmfSmfRequest
modify_of guti eps_bearer_id s1_uteid_dl = record new_smf_request {
  guti = guti;
  msg_type = 2;
  eps_bearer_id = eps_bearer_id;
  s1_uteid_dl = s1_uteid_dl;
  g_trafmon_ip_addr = g_trafmon.ip_addr;
  g_trafmon_port = g_trafmon.port;
}

abbrev pub detach_of : ℕ → ℕ → ℕ → AmfSmfRequest
detach_of guti eps_bearer_id tai = record new_smf_request {
  guti = guti;
  msg_type = 3;
  eps_bearer_id = eps_bearer_id;
  tai = tai;
}

-- The APN is a number of eight bytes, since the code has only bytes.
pub apn_of_small : (ssl : Openssl) (w : IsOpenssl ssl) → apn_of ssl w < 2 ^ 64
unfolding sealed
apn_of_small ssl w =
    let cipher = cipher_of ssl w (encode 1 1) in
    let bytes = take 8 (drop 4 (ssl.hmac cipher ++ cipher)) in
    omega (
      arith,
      decode-AllBytes bytes (
          AllBytes-take-drop 4 8 (ssl.hmac cipher) cipher (omega (arith, w.length-hmac cipher))
            (w.bytes-hmac cipher)),
      ap (λ n. 256 ^ n)
          (length-take 8 (drop 4 (ssl.hmac cipher ++ cipher)) (
            omega (
              arith,
              length-drop 4 (ssl.hmac cipher ++ cipher),
              length-append (ssl.hmac cipher) cipher,
              w.length-hmac cipher,
            ))),
    )

pub g_trafmon_text : IsText g_trafmon.ip_addr
g_trafmon_text = ground arith

pub upf_s1_text : IsText SmfState.upf_s1.ip_addr
upf_s1_text = ground arith

pub g_trafmon_short : length g_trafmon.ip_addr ≤ 15
g_trafmon_short = omega arith

module _ (smf_raw : SmfState.UeContext) (fresh : Packet) (ho_raw raw : UeContext) (src : SockAddr)
    (u : Upf) (s : Smf) (guti imsi s11 apn tai : ℕ) (addr : Bytes) (pkt1 pkt2 pkt3 : Packet)
    (r : IsGtp (new_packet fresh).gtp_hdr)
    (creatable : IsCreatable u addr (asked_of guti imsi s11 apn tai))
    (unset : (SmfHandlers.context smf_raw guti s).s1_uteid_dl ≡ 0) where
  abbrev pub create : AmfSmfRequest
  create = asked_of guti imsi s11 apn tai

  abbrev pub creating : SmfServer
  creating = smf_server smf_raw fresh (upf_peer ho_raw raw src pkt1 u) s

  -- The UPF and the SMF with the session.
  abbrev pub upf_with : Upf
  upf_with = u1 smf_raw fresh ho_raw raw src u s create addr r creatable

  abbrev pub smf_with : Smf
  smf_with = s1 smf_raw fresh ho_raw raw src u s create addr r creatable pkt1

  abbrev pub modifying : SmfServer
  modifying = smf_server smf_raw fresh (upf_peer ho_raw raw src pkt2 upf_with) smf_with

  unfoldable pub creating_creates : Creates creating create
  unfolding create_reply answered
  creating_creates =
      let e = created smf_raw fresh ho_raw raw src u s create addr r creatable pkt1 refl in
      record {
        reply = _;
        answers = smf_server-amf_smf_interaction smf_raw fresh _ s _ create _ e;
        session = record {
          same = refl;
          s1_uteid_ul = omega arith;
          ue_text = creatable.text;
          upf_text = upf_s1_text;
          ue_short = creatable.short;
          upf_short = omega arith;
        };
      }

  module _ (request : AmfSmfRequest) (same : request.guti ≡ guti)
      (here : request.g_trafmon_ip_addr ≡ g_trafmon.ip_addr) where
    trafmon_text : IsText request.g_trafmon_ip_addr
    trafmon_text = subst IsText (sym here) g_trafmon_text

    trafmon_short : length request.g_trafmon_ip_addr ≤ 15
    trafmon_short = omega (arith, ap length here)

    confirmed :
        request.msg_type ≡ 2
        → amf_smf_interaction smf_raw fresh (upf_peer ho_raw raw src pkt2 upf_with) request smf_with
          ≡ ok (
            s2 smf_raw fresh ho_raw raw src u s create addr r creatable pkt1 unset request same
                trafmon_text trafmon_short pkt2,
            record new_smf_reply { res = true },
          )
    confirmed two =
        modified smf_raw fresh ho_raw raw src u s create addr r creatable pkt1 unset request same
          trafmon_text trafmon_short pkt2 two

  pub modifying-Modifies : Modifies modifying guti
  modifying-Modifies = record {
    confirm = λ request same two here. (
      _,
      smf_server-amf_smf_interaction smf_raw fresh _ smf_with _ request _
          (confirmed request same here two),
      refl,
    );
  }

  -- The UPF and the SMF once the modify bearer is done.
  abbrev pub upf_switched : Upf
  upf_switched =
      u2 smf_raw fresh ho_raw raw src u s create addr r creatable pkt1 unset (modify_of guti 0 0)
        refl g_trafmon_text g_trafmon_short pkt2

  abbrev pub smf_switched : Smf
  smf_switched =
      s2 smf_raw fresh ho_raw raw src u s create addr r creatable pkt1 unset (modify_of guti 0 0)
        refl g_trafmon_text g_trafmon_short pkt2

  abbrev pub detaching : SmfServer
  detaching = smf_server smf_raw fresh (upf_peer ho_raw raw src pkt3 upf_switched) smf_switched

  pub detaching-Detaches : Detaches detaching guti
  detaching-Detaches = record {
    confirm = λ request same three.
        let e =
          detached smf_raw fresh ho_raw raw src u s create addr r creatable pkt1 unset
            (modify_of guti 0 0) refl g_trafmon_text g_trafmon_short pkt2 request same pkt3 three in
        (_, smf_server-amf_smf_interaction smf_raw fresh _ smf_switched e.0 request _ e.1, refl);
  }

  pub modified_by_amf :
      (eps dl : ℕ)
      → amf_smf_interaction smf_raw fresh
          (upf_peer ho_raw raw src pkt2 upf_with)
          (modify_of guti eps dl)
          smf_with
        ≡ ok (smf_switched, record new_smf_reply { res = true })
  modified_by_amf eps dl = confirmed (modify_of guti eps dl) refl refl refl
