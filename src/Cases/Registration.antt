-- ===== src/Cases/Registration.antt =====
-- A whole registration at concrete values.
use sba_g_rpc_5g.Base.{ℕ, ◌≡◌, refl, true, some, [], arith}
use sba_g_rpc_5g.Result.{ok}
use sba_g_rpc_5g.Rpc.{AmfSmfRequest, AmfSmfReply}
use sba_g_rpc_5g.Decimal
use sba_g_rpc_5g.UnorderedMap.{clear}
use sba_g_rpc_5g.Telecom.{get_guti_lem}
use sba_g_rpc_5g.Amf.State.{get_s11cteidamf}
use sba_g_rpc_5g.Amf.Clients.{AusfServer, SmfServer, amf_ausf_interaction}
use sba_g_rpc_5g.Amf.Attach.{Unset}
use sba_g_rpc_5g.Ran.State.{RanContext}
use sba_g_rpc_5g.Simulator.{Simulation}
use sba_g_rpc_5g.Registration.{Creates, Modifies, Detaches}
use sba_g_rpc_5g.Registration.Challenges.{IsUe}
use sba_g_rpc_5g.Registration.Outcome.{Registered}
use sba_g_rpc_5g.Registration.Rounds.{register_once-handle_ue}
use sba_g_rpc_5g.Cases.UserPlane.{addr-IsText}
use sba_g_rpc_5g.Cases.Data.{
  packet_0, amf_0, amf_context, ran_context, ran_0, grpc_0, plain_ssl, plain_ssl-IsOpenssl, never,
  addr,
}

abbrev pub ue : RanContext
ue = record ran_context { imsi = 119000000008; tai = 1; enodeb_s1ap_ue_id = 8 }

abbrev pub start : Simulation
start = record {
  ran = record ran_0 { ran_ctx = ue };
  g_traf_mon = record { uplink_info = clear };
  stopped_threads = 0;
  g_tot_regs = 2;
  g_tot_regstime = 40;
  sent = [];
}

abbrev pub locals : Unset
locals = record { xres = 99; k_asme = 98 }

abbrev pub ausf : AusfServer
ausf asked =
    some (record {
      autn_num = 12;
      rand_num = 3;
      xres = 11;
      k_asme = 77;
      default_apn = 0;
      msg_type = 0;
    })

abbrev pub answer : AmfSmfReply
answer = record {
  guti = 1111119000000008;
  eps_bearer_id = 5;
  e_rab_id = 5;
  s1_uteid_ul = 7;
  s11_cteid_upf = 7;
  k_enodeb = 0;
  tai_list_size = 1;
  tau_timer = 100;
  ue_ip_addr = addr;
  g_upf_s1_ip_addr = addr;
  g_upf_s1_port = 7100;
  res = true;
}

abbrev pub smf : SmfServer
smf asked = some (record answer { guti = asked.guti })

abbrev smf_creates : (request : AmfSmfRequest) → Creates smf request
smf_creates request = record {
  reply = _;
  answers = refl;
  session = record {
    same = refl;
    s1_uteid_ul = omega arith;
    ue_text = addr-IsText;
    upf_text = addr-IsText;
    ue_short = omega arith;
    upf_short = omega arith;
  };
}

smf-Modifies : (guti : ℕ) → Modifies smf guti
smf-Modifies guti = record { confirm = λ request same two here. (_, refl, refl) }

smf-Detaches : (guti : ℕ) → Detaches smf guti
smf-Detaches guti = record { confirm = λ request same three. (_, refl, refl) }

pub ue-IsUe : IsUe ue
ue-IsUe = record {
  imsi = omega arith;
  tai = omega arith;
  ksi_asme = omega arith;
  nw_capability = omega arith;
  enodeb_s1ap_ue_id = omega arith;
}

pub teid_of_guti : get_s11cteidamf 1111119000000008 ≡ ok 8
unfolding get_s11cteidamf Decimal.substr_from Decimal.to_string Decimal.digits Decimal.stoull
    Decimal.scan
teid_of_guti = refl

-- The same registration, for other examples.
pub a_registration :
    Registered plain_ssl amf_context grpc_0 locals ausf smf smf smf never packet_0 packet_0 start
      amf_0 1111119000000008 answer
unfolding amf_ausf_interaction
a_registration =
    register_once-handle_ue plain_ssl plain_ssl-IsOpenssl amf_context grpc_0 locals ausf smf smf smf
      never packet_0 packet_0 packet_0 packet_0 5 start amf_0 1111119000000008 8 ue-IsUe
      (omega arith) (omega arith) (omega arith) (omega arith) (omega arith) (smf_creates _)
      (omega arith) (omega arith) (omega arith)
      (get_guti_lem 119000000008 (omega arith) (omega arith)) teid_of_guti
      (smf-Modifies 1111119000000008) (smf-Detaches 1111119000000008)

register_once-handle_ue_example :
    Registered plain_ssl amf_context grpc_0 locals ausf smf smf smf never packet_0 packet_0 start
      amf_0 1111119000000008 answer
unfolding amf_ausf_interaction
register_once-handle_ue_example =
    register_once-handle_ue plain_ssl plain_ssl-IsOpenssl amf_context grpc_0 locals ausf smf smf smf
      never packet_0 packet_0 packet_0 packet_0 5 start amf_0 1111119000000008 8 ue-IsUe
      (omega arith) (omega arith) (omega arith) (omega arith) (omega arith) (smf_creates _)
      (omega arith) (omega arith) (omega arith)
      (get_guti_lem 119000000008 (omega arith) (omega arith)) teid_of_guti
      (smf-Modifies 1111119000000008) (smf-Detaches 1111119000000008)
