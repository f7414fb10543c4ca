-- ===== src/Upf/Sessions.antt =====
-- Sessions in the tables of the user plane function: what a context claims of the identification
-- tables, and how the operations keep it.
use sba_g_rpc_5g.Base.{ℕ, ◌≡◌, ◌≢◌, refl, inl, inr, none, some, arith, ◌==◌, Bool-cases}
use sba_g_rpc_5g.Result.{ok}
use sba_g_rpc_5g.Bytes.{Bytes}
use sba_g_rpc_5g.UnorderedMap.{Map, put, erase, or_fresh, nat_key, bytes_key, bytes_same_iff}
use sba_g_rpc_5g.Upf.State.{UeContext, Upf, new_ue_context, init_ue_context}
use sba_g_rpc_5g.Upf.Tables.{update_itfid, update_itfid_addr, rem_itfid, rem_itfid_addr, rem_uectx}
use sba_g_rpc_5g.Upf.Session.{add_session, remove_session}

-- The session of `imsi` with the context `c`: the three tables lead from its identifiers to it.
pub record IsIndexed (u : Upf) (imsi : ℕ) (c : UeContext) : Type 0 where
  pub by_s11 : u.s11_id c.s11_cteid_upf ≡ some imsi
  pub by_s1 : u.s1_id c.s1_uteid_ul ≡ some imsi
  pub by_addr : u.sgi_id c.ip_addr ≡ some imsi

-- Every context is indexed.
pub record IsConsistent (u : Upf) : Type 0 where
  pub indexed : (imsi : ℕ) (c : UeContext) → u.ue_ctx imsi ≡ some c → IsIndexed u imsi c

-- The identifiers are those of no other session.
pub record IsFree (u : Upf) (imsi teid : ℕ) (addr : Bytes) : Type 0 where
  pub s11_free : (j : ℕ) (c : UeContext) → u.ue_ctx j ≡ some c → j ≢ imsi → c.s11_cteid_upf ≢ teid
  pub s1_free : (j : ℕ) (c : UeContext) → u.ue_ctx j ≡ some c → j ≢ imsi → c.s1_uteid_ul ≢ teid
  pub addr_free : (j : ℕ) (c : UeContext) → u.ue_ctx j ≡ some c → j ≢ imsi → c.ip_addr ≢ addr

module _ (raw : UeContext) (teid imsi eps apn tai : ℕ) (addr : Bytes) (u : Upf) where
  -- Adding a session never fails.
  unfoldable pub added : Upf
  added = record u {
    s11_id = put teid imsi u.s11_id;
    s1_id = put teid imsi u.s1_id;
    sgi_id = put addr imsi u.sgi_id;
    ue_ctx =
        put imsi
          (record (init_ue_context addr tai apn eps teid teid teid
            (or_fresh (new_ue_context raw) (u.ue_ctx imsi))) { tai = tai })
          u.ue_ctx;
  }

  pub add_session-added : add_session raw teid imsi eps apn tai addr u ≡ ok added
  unfolding add_session added update_itfid update_itfid_addr
  add_session-added = refl

  pub added_tables :
      (added.s11_id teid ≡ some imsi)
      × (added.s1_id teid ≡ some imsi)
      × (added.sgi_id addr ≡ some imsi)
  unfolding added
  added_tables = (ground arith, ground arith, ground (arith, bytes_same_iff addr addr))

  -- The new session is indexed, and so are the others if its identifiers are free.
  pub added-IsConsistent : IsConsistent u → IsFree u imsi teid addr → IsConsistent added
  unfolding added init_ue_context
  added-IsConsistent w f = record {
    indexed = λ j c e. elim (Bool-cases (imsi == j)) [
      | inl here ↦ record {
        by_s11 = ground arith;
        by_s1 = ground arith;
        by_addr = ground (arith, bytes_same_iff addr c.ip_addr);
      }
      | inr other ↦
          let e' : u.ue_ctx j ≡ some c = ground arith in
          let ne : j ≢ imsi = ground arith in
          let old = w.indexed j c e' in
          record {
            by_s11 = ground (arith, old.by_s11, f.s11_free j c e' ne);
            by_s1 = ground (arith, old.by_s1, f.s1_free j c e' ne);
            by_addr =
                ground (arith, old.by_addr, f.addr_free j c e' ne, bytes_same_iff addr c.ip_addr);
          }
    ];
  }

module _ (imsi : ℕ) (c : UeContext) (u : Upf) where
  -- Removing a session never fails.
  unfoldable pub removed : Upf
  removed = record u {
    s11_id = erase c.s11_cteid_upf u.s11_id;
    s1_id = erase c.s1_uteid_ul u.s1_id;
    sgi_id = erase c.ip_addr u.sgi_id;
    ue_ctx = erase imsi u.ue_ctx;
  }

  pub remove_session-removed : remove_session imsi c u ≡ ok removed
  unfolding remove_session removed rem_itfid rem_itfid_addr rem_uectx
  remove_session-removed = refl

  pub removed_tables :
      (removed.ue_ctx imsi ≡ none)
      × (removed.s11_id c.s11_cteid_upf ≡ none)
      × (removed.s1_id c.s1_uteid_ul ≡ none)
      × (removed.sgi_id c.ip_addr ≡ none)
  unfolding removed
  removed_tables =
      (ground arith, ground arith, ground arith, ground (arith, bytes_same_iff c.ip_addr c.ip_addr))

  -- No trace of the session is left, and the sessions of the others stay indexed: in a consistent
  -- state no two sessions share an identifier.
  pub removed-IsConsistent : IsConsistent u → u.ue_ctx imsi ≡ some c → IsConsistent removed
  unfolding removed
  removed-IsConsistent w h = record {
    indexed = λ j d e.
        let ne : imsi ≢ j = ground arith in
        let e' : u.ue_ctx j ≡ some d = ground arith in
        let mine = w.indexed imsi c h in
        let theirs = w.indexed j d e' in
        record {
          by_s11 = ground (arith, mine.by_s11, theirs.by_s11, ne);
          by_s1 = ground (arith, mine.by_s1, theirs.by_s1, ne);
          by_addr =
              ground (arith, mine.by_addr, theirs.by_addr, ne, bytes_same_iff c.ip_addr d.ip_addr);
        };
  }

-- The address table plays no part.
pub IsConsistent-ip_addrs :
    (m : Map ℕ Bytes) (u : Upf) → IsConsistent u → IsConsistent (record u { ip_addrs = m })
IsConsistent-ip_addrs m u w = record {
  indexed = λ j c e.
      let old = w.indexed j c e in
      record { by_s11 = old.by_s11; by_s1 = old.by_s1; by_addr = old.by_addr };
}

pub IsFree-ip_addrs :
    (m : Map ℕ Bytes) (u : Upf) (imsi teid : ℕ) (addr : Bytes)
    → IsFree u imsi teid addr
    → IsFree (record u { ip_addrs = m }) imsi teid addr
IsFree-ip_addrs m u imsi teid addr f = record {
  s11_free = f.s11_free;
  s1_free = f.s1_free;
  addr_free = f.addr_free;
}

-- A context may change in what the tables do not speak of.
pub IsConsistent-update :
    (imsi : ℕ) (c d : UeContext) (u : Upf)
    → IsConsistent u
    → u.ue_ctx imsi ≡ some c
    → d.s11_cteid_upf ≡ c.s11_cteid_upf
    → d.s1_uteid_ul ≡ c.s1_uteid_ul
    → d.ip_addr ≡ c.ip_addr
    → IsConsistent (record u { ue_ctx = put imsi d u.ue_ctx })
IsConsistent-update imsi c d u w h a b e = record {
  indexed = λ j x p. elim (Bool-cases (imsi == j)) [
    | inl here ↦
        let old = w.indexed imsi c h in
        record {
          by_s11 = ground (arith, old.by_s11);
          by_s1 = ground (arith, old.by_s1);
          by_addr = ground (arith, old.by_addr);
        }
    | inr other ↦
        let p' : u.ue_ctx j ≡ some x = ground arith in
        let old = w.indexed j x p' in
        record { by_s11 = old.by_s11; by_s1 = old.by_s1; by_addr = old.by_addr }
  ];
}
