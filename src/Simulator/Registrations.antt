-- ===== src/Simulator/Registrations.antt =====
-- What the load generator counts (src/ran_simulator.cpp).
use sba_g_rpc_5g.Base.{
  ℕ, suc, ◌<◌, ◌+◌, ◌*◌, ◌≤◌, ◌≡◌, refl, ap, ◌∙◌, ◌%◌, ◌^◌, Bool, true, false, if◌then◌else◌, List,
  [], ◌∷◌, ◌++◌, length, arith, length-append,
}
use sba_g_rpc_5g.Result.{Result, ok, bind_ok}
use mathlib.Core.Path.{subst}
use sba_g_rpc_5g.Packet.{Packet}
use sba_g_rpc_5g.Security.{Openssl}
use sba_g_rpc_5g.Sctp.{Segment}
use sba_g_rpc_5g.Ran.State.{Ran}
use sba_g_rpc_5g.Ran.Attach.{authenticate, set_security, initial_attach}
use sba_g_rpc_5g.Ran.Traffic.{TrafficMonitor}
use sba_g_rpc_5g.Ran.Session.{set_eps_session, complete_attach, request_detach, confirm_detach}
use sba_g_rpc_5g.Simulator.{
  Round, Turn, idle, time_exceeded, round, Simulation, update_metrics, leave, use_session, secure,
  register_once, simulate,
}

abbrev one_if : Bool → ℕ
one_if b = if b then 1 else 0

authenticate_sends :
    (r r' : Ran) (p : Packet) (outs : List Segment) (b : Bool)
    → authenticate r p ≡ ok (r', outs, b)
    → length outs ≡ one_if b
unfolding authenticate
authenticate_sends r r' p outs b e = ground arith

set_security_sends :
    (ssl : Openssl) (r r' : Ran) (p : Packet) (outs : List Segment) (b : Bool)
    → set_security ssl r p ≡ ok (r', outs, b)
    → length outs ≡ one_if b
unfolding set_security
set_security_sends ssl r r' p outs b e = ground arith

set_eps_session_sends :
    (ssl : Openssl) (r r' : Ran) (p : Packet) (t t' : TrafficMonitor) (outs : List Segment)
    (b : Bool)
    → set_eps_session ssl r p t ≡ ok (r', t', outs, b)
    → length outs ≡ one_if b
unfolding set_eps_session complete_attach
set_eps_session_sends ssl r r' p t t' outs b e = ground arith

-- What a part of a round adds: `k` messages and a registration, or at most `k` messages.
abbrev Sends : ℕ → Simulation → Simulation → Bool → Type 0
Sends k s s' true =
    (s'.g_tot_regs ≡ (s.g_tot_regs + 1) % 2 ^ 32) × (length s'.sent ≡ length s.sent + k)
Sends k s s' false =
    (s'.g_tot_regs ≡ s.g_tot_regs)
    × (length s.sent ≤ length s'.sent)
    × (length s'.sent ≤ length s.sent + k)

abbrev returns : Simulation → Bool → Result (Simulation × Bool)
returns s b = ok (s, b)

rename_ok :
    (k : ℕ) (s s1 s' : Simulation) (b1 b : Bool)
    → returns s1 b1 ≡ returns s' b
    → Sends k s s1 b1
    → Sends k s s' b
rename_ok k s s1 s' b1 b e h =
    let e1 : s1 ≡ s' = cc in
    let e2 : b1 ≡ b = cc in subst (λ b. Sends k s s' b) e2 (subst (λ s'. Sends k s s' b1) e1 h)

after :
    (j k : ℕ) (s s1 s' : Simulation) (b : Bool)
    → s1.g_tot_regs ≡ s.g_tot_regs
    → length s1.sent ≡ length s.sent + j
    → Sends k s1 s' b
    → Sends (j + k) s s' b
after j k s s1 s' true e n h = (h.0 ∙ ap (λ r. (r + 1) % 2 ^ 32) e, omega (arith, n, h.1))
after j k s s1 s' false e n h = (h.0 ∙ e, omega (arith, n, h), omega (arith, n, h))

-- A step that goes on, or returns, after `m` messages and one more where it goes on.
branch :
    (m k : ℕ) (s s1 s' : Simulation) (rest : Result (Simulation × Bool)) (go b : Bool)
    → (if go then rest else returns s1 false) ≡ returns s' b
    → (rest ≡ returns s' b → Sends k s1 s' b)
    → s1.g_tot_regs ≡ s.g_tot_regs
    → length s1.sent ≡ length s.sent + (m + one_if go)
    → Sends (m + 1 + k) s s' b
branch m k s s1 s' rest true b e h regs n = after (m + 1) k s s1 s' b regs n (h e)
branch m k s s1 s' rest false b e h regs n =
    rename_ok (m + 1 + k) s s1 s' false b e (regs, omega arith, omega arith)

module _ (ssl : Openssl) (x : Round) (s s' : Simulation) (b : Bool) where
  leave-Sends : leave ssl x s ≡ returns s' b → Sends 1 s s' b
  unfolding leave
  leave-Sends e =
      let (out, e1, e2) = bind_ok (request_detach ssl s.ran x.before_detach) _ e in
      let (done, e3, e4) = bind_ok (confirm_detach ssl x.confirmation) _ e2 in
      let s1 = record s { sent = s.sent ++ out ∷ [] } in
      let n = length-append s.sent (out ∷ []) in confirmed s1 done e4 refl n
    where
      confirmed :
          (s1 : Simulation) (done : Bool)
          → (if done then returns (update_metrics x s1) true else returns s1 false) ≡ returns s' b
          → s1.g_tot_regs ≡ s.g_tot_regs
          → length s1.sent ≡ length s.sent + 1
          → Sends 1 s s' b
      confirmed s1 true e regs n =
          rename_ok 1 s (update_metrics x s1) s' true b e (ap (λ r. (r + 1) % 2 ^ 32) regs, n)
      confirmed s1 false e regs n = rename_ok 1 s s1 s' false b e (regs, omega arith, omega arith)

module _ (ssl : Openssl) (x : Round) (s s' : Simulation) (b : Bool) where
  use_session-Sends : use_session ssl x s ≡ returns s' b → Sends 2 s s' b
  unfolding use_session
  use_session-Sends e =
      let ((r, t, outs, set), e1, e2) =
        bind_ok (set_eps_session ssl s.ran x.acceptance s.g_traf_mon) _ e in
      let n = set_eps_session_sends ssl s.ran r x.acceptance s.g_traf_mon t outs set e1 in
      let s1 = record s { ran = r; g_traf_mon = t; sent = s.sent ++ outs } in
      branch 0 1 s s1 s' (leave ssl x s1) set b e2 (leave-Sends ssl x s1 s' b) refl
        (omega (arith, n, length-append s.sent outs))

module _ (ssl : Openssl) (x : Round) (s s' : Simulation) (b : Bool) where
  secure-Sends : secure ssl x s ≡ returns s' b → Sends 3 s s' b
  unfolding secure
  secure-Sends e =
      let ((r, outs, set), e1, e2) = bind_ok (set_security ssl s.ran x.command) _ e in
      let n = set_security_sends ssl s.ran r x.command outs set e1 in
      let s1 = record s { ran = r; sent = s.sent ++ outs } in
      branch 0 2 s s1 s' (use_session ssl x s1) set b e2 (use_session-Sends ssl x s1 s' b) refl
        (omega (arith, n, length-append s.sent outs))

module _ (ssl : Openssl) (x : Round) (s s' : Simulation) (b : Bool) where
  register_once-Sends : register_once ssl x s ≡ returns s' b → Sends 5 s s' b
  unfolding register_once
  register_once-Sends e =
      let (out, e1, e2) = bind_ok (initial_attach s.ran.ran_ctx x.pkt) _ e in
      let ((r, outs, set), e3, e4) = bind_ok (authenticate s.ran x.challenge) _ e2 in
      let n = authenticate_sends s.ran r x.challenge outs set e3 in
      let s1 = record s { ran = r; sent = s.sent ++ (out ∷ outs) } in
      branch 1 3 s s1 s' (secure ssl x s1) set b e4 (secure-Sends ssl x s1 s' b) refl
        (omega (arith, n, length-append s.sent (out ∷ outs)))

-- Five messages for each registration counted since, and at most five more.
pub record Counted (s s' : Simulation) : Type 0 where
  pub grows : s.g_tot_regs ≤ s'.g_tot_regs
  pub least : length s.sent + 5 * s'.g_tot_regs ≤ length s'.sent + 5 * s.g_tot_regs
  pub most : length s'.sent + 5 * s.g_tot_regs ≤ length s.sent + 5 * s'.g_tot_regs + 5

abbrev ended : Simulation → Result Simulation
ended s = ok s

stays : (s s1 s' : Simulation) → ended s1 ≡ ok s' → Counted s s1 → Counted s s'
stays s s1 s' e c = let same : s1 ≡ s' = cc in subst (λ s'. Counted s s') same c

goes_on :
    (n : ℕ) (s s1 s' : Simulation) (rest : Result Simulation) (go : Bool)
    → s.g_tot_regs + suc n < 2 ^ 31
    → Sends 5 s s1 go
    → (if go then rest else ok s1) ≡ ok s'
    → (s1.g_tot_regs + n < 2 ^ 31 → rest ≡ ok s' → Counted s1 s')
    → Counted s s'
goes_on n s s1 s' rest true h k e next =
    let c = next (omega (arith, h, k.0)) e in
    record {
      grows = omega (arith, h, k.0, c.grows);
      least = omega (arith, h, k.0, k.1, c.least);
      most = omega (arith, h, k.0, k.1, c.most);
    }
goes_on n s s1 s' rest false h k e next = stays s s1 s' e (record {
  grows = omega (arith, k.0);
  least = omega (arith, k.0, k.1);
  most = omega (arith, k.0, k.2);
})

-- A thread of the load generator that runs over any turns without a fault, where the count of
-- registrations does not overflow: the count never goes down, and the number of messages that the
-- thread has sent since is at least five for each registration that it has counted since, and at most
-- five more.
pub simulate-Counted :
    (ssl : Openssl) (turns : List Turn) (s s' : Simulation)
    → s.g_tot_regs + length turns < 2 ^ 31
    → simulate ssl turns s ≡ ok s'
    → Counted s s'
unfolding simulate
simulate-Counted ssl [] s s' h e =
    stays s s s' e (record { grows = omega arith; least = omega arith; most = omega arith })
simulate-Counted ssl (idle ∷ turns) s s' h e = simulate-Counted ssl turns s s' (omega arith) e
simulate-Counted ssl (time_exceeded ∷ turns) s s' h e =
    stays s (record s { stopped_threads = (s.stopped_threads + 1) % 2 ^ 32 }) s' e
      (record { grows = omega arith; least = omega arith; most = omega arith })
simulate-Counted ssl (round x ∷ turns) s s' h e =
    let ((s1, go), e1, e2) = bind_ok (register_once ssl x s) _ e in
    goes_on (length turns) s s1 s' (simulate ssl turns s1) go h
      (register_once-Sends ssl x s s1 go e1) e2 (simulate-Counted ssl turns s1 s')
