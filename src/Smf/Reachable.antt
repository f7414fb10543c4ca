-- ===== src/Smf/Reachable.antt =====
-- What holds of the contexts of the session management function after any sequence of calls of its
-- service (src/smf.cpp, src/smf_server.cpp).
use sba_g_rpc_5g.Base.{ℕ, ◌≡◌, refl, Option, none, some, inl, inr, arith, ◌==◌, Bool-cases}
use sba_g_rpc_5g.Result.{ok}
use sba_g_rpc_5g.Packet.{Packet}
use sba_g_rpc_5g.Rpc.{AmfSmfRequest, AmfSmfReply, UdpPeer, new_smf_reply}
use sba_g_rpc_5g.UnorderedMap.{put, or_fresh, nat_key}
use sba_g_rpc_5g.Smf.State.{UeContext, Smf, new_smf, new_ue_context}
use sba_g_rpc_5g.Smf.Handlers.{
  context, requested, answered, handle_create_session, handle_modify_bearer, handle_detach,
  amf_smf_interaction,
}

-- No context has a downlink TEID.
abbrev pub IsUnset : Smf → Type 0
IsUnset s = (guti : ℕ) (c : UeContext) → s.ue_ctx guti ≡ some c → c.s1_uteid_dl ≡ 0

-- The states that the service comes to, whatever it is called with and whatever the user plane
-- function and the memory hold.
pub data IsReachable : Smf → Type 0 where
  start : IsReachable new_smf
  call :
      (raw : UeContext) (fresh : Packet) (upf : UdpPeer) (request : AmfSmfRequest) (s s' : Smf)
      (reply : AmfSmfReply)
      → IsReachable s
      → amf_smf_interaction raw fresh upf request s ≡ ok (s', reply)
      → IsReachable s'

or_fresh-unset :
    (raw : UeContext) (o : Option UeContext)
    → ((c : UeContext) → o ≡ some c → c.s1_uteid_dl ≡ 0)
    → (or_fresh (new_ue_context raw) o).s1_uteid_dl ≡ 0
unfolding new_ue_context
or_fresh-unset raw none h = refl
or_fresh-unset raw (some c) h = h c refl

put-unset :
    (guti : ℕ) (c : UeContext) (s : Smf)
    → IsUnset s
    → c.s1_uteid_dl ≡ 0
    → (j : ℕ) (d : UeContext) → put guti c s.ue_ctx j ≡ some d
    → d.s1_uteid_dl ≡ 0
put-unset guti c s h e j d known = elim (Bool-cases (guti == j)) [
  | inl here ↦ ground (arith, e)
  | inr other ↦ ground (arith, h j d)
]

module _ (raw : UeContext) (fresh : Packet) (upf : UdpPeer) (request : AmfSmfRequest)
    (reply : AmfSmfReply) (s : Smf) (h : IsUnset s) where
  context-unset : (context raw request.guti s).s1_uteid_dl ≡ 0
  context-unset = or_fresh-unset raw (s.ue_ctx request.guti) (h request.guti)

  create-unset :
      (s' : Smf) (r : AmfSmfReply)
      → handle_create_session raw fresh upf request reply s ≡ ok (s', r)
      → (j : ℕ) (d : UeContext) → s'.ue_ctx j ≡ some d
      → d.s1_uteid_dl ≡ 0
  unfolding handle_create_session requested answered
  create-unset s' r e j d known = ground (arith, context-unset, h j d)

  detach-unset :
      (s' : Smf) (r : AmfSmfReply)
      → handle_detach raw fresh upf request reply s ≡ ok (s', r)
      → (j : ℕ) (d : UeContext) → s'.ue_ctx j ≡ some d
      → d.s1_uteid_dl ≡ 0
  unfolding handle_detach
  detach-unset s' r e j d known = ground (arith, context-unset, h j d)

  modify-unset :
      (s' : Smf) (r : AmfSmfReply)
      → handle_modify_bearer raw fresh upf request reply s ≡ ok (s', r)
      → (j : ℕ) (d : UeContext) → s'.ue_ctx j ≡ some d
      → d.s1_uteid_dl ≡ 0
  unfolding handle_modify_bearer
  modify-unset s' r e j d known = ground (arith, context-unset, h j d)

interaction-IsUnset :
    (raw : UeContext) (fresh : Packet) (upf : UdpPeer) (request : AmfSmfRequest) (s s' : Smf)
    (r : AmfSmfReply)
    → IsUnset s
    → amf_smf_interaction raw fresh upf request s ≡ ok (s', r)
    → IsUnset s'
unfolding amf_smf_interaction
interaction-IsUnset raw fresh upf request s s' r h e j d known =
    elim (Bool-cases (request.msg_type == 1)) [
      | inl a ↦ create-unset raw fresh upf request new_smf_reply s h s' r (rw a at e) j d known
      | inr a ↦ elim (Bool-cases (request.msg_type == 2)) [
        | inl b ↦
            modify-unset raw fresh upf request new_smf_reply s h s' r (rw (a, b) at e) j d known
        | inr b ↦ elim (Bool-cases (request.msg_type == 3)) [
          | inl c ↦
              detach-unset raw fresh upf request new_smf_reply s h s' r (rw (a, b, c) at e) j d
                known
          | inr c ↦ ground (arith, h j d)
        ]
      ]
    ]

-- In every state that the service comes to, no context has a downlink TEID: the one that the RAN
-- assigns never enters the session management function.
pub reachable-IsUnset : (s : Smf) → IsReachable s → IsUnset s
unfolding new_smf
reachable-IsUnset s start = λ guti c known. absurd (ground arith)
reachable-IsUnset s' (call raw fresh upf request s _ reply r e) =
    interaction-IsUnset raw fresh upf request s s' reply (reachable-IsUnset s r) e
