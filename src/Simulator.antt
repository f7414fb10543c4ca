-- ===== src/Simulator.antt =====
-- A thread of the load generator (simulate, src/ran_simulator.cpp): the registrations of one base
-- station, one after the other. What the base station hears, and what the clock says, is given; a
-- packet is what `rcv` has filled. Ran::transfer_data only runs a command.
pub mod Registrations
pub mod Schedule
use sba_g_rpc_5g.Base.{ℕ, ◌+◌, ◌%◌, ◌^◌, Bool, true, false, if◌then◌else◌, List, [], ◌∷◌, ◌++◌}
use sba_g_rpc_5g.Result.{Result, ok, ◌>>=◌}
use sba_g_rpc_5g.Packet.{Packet}
use sba_g_rpc_5g.Security.{Openssl}
use sba_g_rpc_5g.Sctp.{Segment}
use sba_g_rpc_5g.Ran.State.{Ran}
use sba_g_rpc_5g.Ran.Attach.{initial_attach, authenticate, set_security}
use sba_g_rpc_5g.Ran.Traffic.{TrafficMonitor}
use sba_g_rpc_5g.Ran.Session.{set_eps_session, request_detach, confirm_detach}

-- The answers of the AMF in one round, the packet as each request finds it, and the duration.
pub record Round : Type 0 where
  pub pkt : Packet
  pub challenge : Packet
  pub command : Packet
  pub acceptance : Packet
  pub before_detach : Packet
  pub confirmation : Packet
  pub mtime_diff_us : ℕ

-- What `while (1)` meets: a time at which the base station is not scheduled, the end of the
-- requested duration, or a round.
pub data Turn : Type 0 where
  idle time_exceeded : Turn
  round : Round → Turn

-- The base station, the traffic monitor, the totals and what was sent.
pub record Simulation : Type 0 where
  pub ran : Ran
  pub g_traf_mon : TrafficMonitor
  pub stopped_threads : ℕ
  pub g_tot_regs : ℕ
  pub g_tot_regstime : ℕ
  pub sent : List Segment

-- The totals at the end of a round
abbrev pub update_metrics : Round → Simulation → Simulation
update_metrics x s = record s {
  g_tot_regs = (s.g_tot_regs + 1) % 2 ^ 32;
  g_tot_regstime = (s.g_tot_regstime + x.mtime_diff_us) % 2 ^ 64;
}

module _ (ssl : Openssl) where
  -- From the detach on; false where the thread returns.
  unfoldable pub leave : Round → Simulation → Result (Simulation × Bool)
  leave x s = do
    out ← request_detach ssl s.ran x.before_detach
    let s1 = record s { sent = s.sent ++ out ∷ [] }
    done ← confirm_detach ssl x.confirmation
    if done then ok (update_metrics x s1, true) else ok (s1, false)

  -- From the session on
  unfoldable pub use_session : Round → Simulation → Result (Simulation × Bool)
  use_session x s = do
    (r, t, outs, set) ← set_eps_session ssl s.ran x.acceptance s.g_traf_mon
    let s1 = record s { ran = r; g_traf_mon = t; sent = s.sent ++ outs }
    if set then leave x s1 else ok (s1, false)

  -- From the security mode on
  unfoldable pub secure : Round → Simulation → Result (Simulation × Bool)
  secure x s = do
    (r, outs, set) ← set_security ssl s.ran x.command
    let s1 = record s { ran = r; sent = s.sent ++ outs }
    if set then use_session x s1 else ok (s1, false)

  -- One registration.
  unfoldable pub register_once : Round → Simulation → Result (Simulation × Bool)
  register_once x s = do
    out ← initial_attach s.ran.ran_ctx x.pkt
    (r1, outs1, authenticated) ← authenticate s.ran x.challenge
    let s1 = record s { ran = r1; sent = s.sent ++ (out ∷ outs1) }
    if authenticated then secure x s1 else ok (s1, false)

  -- The loop, over the turns that come.
  unfoldable pub simulate : List Turn → Simulation → Result Simulation
  simulate [] s = ok s
  simulate (idle ∷ turns) s = simulate turns s
  simulate (time_exceeded ∷ turns) s =
      ok (record s { stopped_threads = (s.stopped_threads + 1) % 2 ^ 32 })
  simulate (round x ∷ turns) s = do
    (s1, goes_on) ← register_once x s
    if goes_on then simulate turns s1 else ok s1
