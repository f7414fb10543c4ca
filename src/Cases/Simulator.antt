-- ===== src/Cases/Simulator.antt =====
-- A thread of the load generator: no turn, a round in which the AMF does not answer.
use sba_g_rpc_5g.Base.{ℕ, ◌≤◌, ◌≡◌, refl, arith, List, [], ◌∷◌, length, replicate, length-replicate}
use sba_g_rpc_5g.Result.{ok, fault, overrun}
use sba_g_rpc_5g.Packet.{
  append_bytes, append_u16, append_u64, clear_pkt, poke, peek, allocate, copy, prepend_bytes,
  prepend_s1ap_hdr, prepend_len, s1ap_init, s1ap_bytes,
}
use sba_g_rpc_5g.UnorderedMap.{clear}
use sba_g_rpc_5g.Sctp.{Segment, requester, send, write_sctp_pkt}
use sba_g_rpc_5g.Signals.{signal, signal_hdr, frame}
use sba_g_rpc_5g.Ran.State.{got_nothing}
use sba_g_rpc_5g.Ran.Attach.{initial_attach, authenticate}
use sba_g_rpc_5g.Simulator.{Round, idle, round, Simulation, register_once, simulate}
use sba_g_rpc_5g.Simulator.Registrations.{Counted, simulate-Counted}
use sba_g_rpc_5g.Simulator.Schedule.{
  nstars, time_period, place, time_to_start, schedule, schedule-overrun,
}
use sba_g_rpc_5g.Cases.Registration.{start, a_registration}
use sba_g_rpc_5g.Cases.Data.{packet_0, ran_0, plain_ssl}

abbrev unanswered : Round
unanswered = record {
  pkt = packet_0;
  challenge = packet_0;
  command = packet_0;
  acceptance = packet_0;
  before_detach = packet_0;
  confirmation = packet_0;
  mtime_diff_us = 5;
}

abbrev before : Simulation
before = record {
  ran = ran_0;
  g_traf_mon = record { uplink_info = clear };
  stopped_threads = 0;
  g_tot_regs = 2;
  g_tot_regstime = 40;
  sent = [];
}

abbrev asked : Segment
asked = record { to = requester; bytes = frame (signal 1 7 0 packet_0.s1ap_hdr (replicate 26 0)) }

abbrev after : Simulation
after = record before { sent = asked ∷ [] }

unanswered_run : simulate plain_ssl (idle ∷ round unanswered ∷ idle ∷ []) before ≡ ok after
unfolding simulate register_once initial_attach authenticate got_nothing append_u64 append_u16
    append_bytes clear_pkt poke peek allocate replicate copy prepend_bytes prepend_s1ap_hdr
    prepend_len s1ap_init s1ap_bytes send write_sctp_pkt signal signal_hdr frame
unanswered_run = refl

no_count : Counted before after
no_count =
    simulate-Counted plain_ssl (idle ∷ round unanswered ∷ idle ∷ []) before after (omega arith)
      unanswered_run

-- A round that is counted.
answered_run :
    simulate plain_ssl (idle ∷ round a_registration.round ∷ idle ∷ []) start
    ≡ ok a_registration.after
unfolding simulate
answered_run = rw a_registration.succeeds

one_more : a_registration.after.g_tot_regs ≡ 3
one_more = a_registration.counted

simulate-Counted_example : Counted start a_registration.after
simulate-Counted_example =
    simulate-Counted plain_ssl (idle ∷ round a_registration.round ∷ idle ∷ []) start
      a_registration.after (omega arith) answered_run

abbrev samples : List ℕ
samples = replicate 10000 100

schedule-overrun_example :
    (ue_num : ℕ) × (times : List ℕ) × (place time_period 0 samples 0 time_to_start
      ≡ ok (ue_num, times))
    × (ue_num ≤ 70)
    × (length times ≡ nstars)
    × (schedule samples ≡ fault overrun)
schedule-overrun_example = schedule-overrun samples (length-replicate 10000 100)
