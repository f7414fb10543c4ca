-- ===== src/Amf/Identity.antt =====
-- The ids of the access and mobility management function and its authentication check (src/amf.cpp).
use sba_g_rpc_5g.Base.{
  nonzero, ℕ, ◌+◌, ◌-◌, ◌%◌, ◌^◌, ◌≤◌, ◌<◌, ◌≡◌, ◌≢◌, refl, ap, ◌∙◌, Bool, true, false, Option,
  none, some, ◌++◌, arith, ◌==◌, if◌then◌else◌,
}
use sba_g_rpc_5g.Result.{ok}
use sba_g_rpc_5g.Bytes.{Bytes, encode}
use sba_g_rpc_5g.Packet.{Packet, S1ap, extract_u64}
use sba_g_rpc_5g.Packet.View.{view, s1ap_hdr-view}
use sba_g_rpc_5g.Packet.Numbers.{extract_number-view}
use sba_g_rpc_5g.UnorderedMap.{nat_key}
use sba_g_rpc_5g.Amf.State.{UeContext, Amf, context, set_context, get_guti, init_ue_context}
use sba_g_rpc_5g.Amf.Attach.{register, handle_autn}

-- The UE ids that are in use have been given out.
pub record IsCounted (a : Amf) : Type 0 where
  pub counted : (id guti : ℕ) → a.s1amf_id id ≡ some guti → (0 < id) × (id ≤ a.ue_count)

pub unused : (n : ℕ) (o : Option ℕ) → ((g : ℕ) → o ≡ some g → n < n) → o ≡ none
unused n none h = refl
unused n (some g) h = absurd (omega (arith, h g refl))

-- As long as fewer than 2 ^ 32 - 1 UEs have attached, a new UE gets an id that is not 0 and that no
-- UE has; its GUTI and its context are found under it, the other UEs keep their ids, and the count
-- stays the bound of the ids.
pub register-fresh :
    (raw : UeContext) (guti imsi tai nw_capability enodeb_s1ap_ue_id : ℕ) (a : Amf)
    → IsCounted a
    → a.ue_count < 2 ^ 32 - 1
    → let id = a.ue_count + 1 in
      let a' = register raw guti imsi tai nw_capability enodeb_s1ap_ue_id a in
      (a.s1amf_id id ≡ none)
      × (a'.s1amf_id id ≡ some guti)
      × ((j : ℕ) → j ≢ id → a'.s1amf_id j ≡ a.s1amf_id j)
      × ((context raw guti a').imsi ≡ imsi)
      × ((context raw guti a').mme_s1ap_ue_id ≡ id)
      × IsCounted a'
unfolding register init_ue_context
register-fresh raw guti imsi tai nw_capability enodeb_s1ap_ue_id a w h =
    let id = a.ue_count + 1 in
    let same : id % 2 ^ 64 % 2 ^ 32 ≡ id = omega arith in
    (
      unused id (a.s1amf_id id) (λ g e. omega (arith, w.counted id g e)),
      ground (arith, same),
      λ j n. ground (arith, same, n),
      ground arith,
      ground (arith, same),
      record { counted = λ j g e. ground (arith, w.counted j g, same, e) },
    )

both_true : (b : Bool) → (if b then true else true) ≡ true
both_true true = refl
both_true false = refl

-- Any response to the challenge is accepted: for a UE id that leads to a GUTI other than 0, the
-- authentication check returns true whatever the 64-bit response is.
pub handle_autn-accepts :
    (raw : UeContext) (q : Packet) (a : Amf) (used rest : Bytes) (res guti : ℕ)
    → res < 2 ^ 64
    → a.s1amf_id q.s1ap_hdr.mme_s1ap_ue_id ≡ some guti
    → guti ≢ 0
    → handle_autn raw (view q used (encode 8 res ++ rest)) a
      ≡ ok (set_context guti (context raw guti a) a, true)
unfolding handle_autn get_guti extract_u64
handle_autn-accepts raw q a used rest res guti h known real =
    let id : a.s1amf_id (view q used (encode 8 res ++ rest)).s1ap_hdr.mme_s1ap_ue_id ≡ some guti =
      ap (λ (s : S1ap). a.s1amf_id s.mme_s1ap_ue_id) (s1ap_hdr-view q used (encode 8 res ++ rest))
      ∙ known in
    rw (id, nonzero guti real, extract_number-view 8 res q used rest h)
      (ap (λ b. ok (set_context guti (context raw guti a) a, b)) (both_true (res == _)))
