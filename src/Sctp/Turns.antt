-- ===== src/Sctp/Turns.antt =====
-- Who gets a connection: the accepting thread deals them out in turn (src/sctp_server.cpp).
use sba_g_rpc_5g.Base.{
  ℕ, zero, suc, ◌+◌, ◌-◌, ◌%◌, ◌^◌, ◌≤◌, ◌<◌, ◌≡◌, refl, sym, ap, ◌∙◌, ◌⊎◌, inl, inr, if◌then◌else◌,
  some, List, [], ◌∷◌, ◌++◌, length, get_elem?, ltb, arith, lt→ltb,
}
use native.Mathlib.Nat.{mod-add-mod, mod-eq_of_lt, mod-lt, add-mod_right}
use sba_g_rpc_5g.Result.{ok}
use sba_g_rpc_5g.Bytes.{encode}
use sba_g_rpc_5g.Packet.{Packet, append_int}
use sba_g_rpc_5g.Packet.View.{append_bytes-view}
use sba_g_rpc_5g.Packet.Moves.{clear_pkt-view}
use sba_g_rpc_5g.Sctp.Framing.{write_sctp_pkt-view}
use sba_g_rpc_5g.Sctp.Server.{Handed, Accepted, accept_round, accept_clients}

-- What the worker gets for a connection: its descriptor in a frame.
abbrev pub handed : ℕ → ℕ → Handed
handed worker conn_fd = record { worker = worker; bytes = encode 4 4 ++ encode 4 conn_fd }

accept_round_lem :
    (workers_count turn : ℕ) (x : Accepted) (pkt : Packet)
    → x.conn_fd < 2 ^ 31
    → x.status < 2 ^ 31
    → turn < workers_count
    → accept_round workers_count turn x pkt ≡ ok ((turn + 1) % workers_count, handed turn x.conn_fd)
unfolding accept_round append_int
accept_round_lem workers_count turn x pkt h g k = rw (
  lt→ltb x.conn_fd (2 ^ 31) h,
  lt→ltb x.status (2 ^ 31) g,
  clear_pkt-view pkt,
  append_bytes-view pkt [] (encode 4 x.conn_fd) (omega arith),
  lt→ltb turn workers_count k,
  write_sctp_pkt-view pkt (encode 4 x.conn_fd) [] (omega arith),
)

-- Neither accept(2) nor the write to the pipe fails.
abbrev pub AllInt : List Accepted → Type 0
AllInt [] = Unit {0}
AllInt (x ∷ xs) = ((x.conn_fd < 2 ^ 31) × (x.status < 2 ^ 31)) × AllInt xs

-- The workers that the connections go to.
deal : ℕ → ℕ → List Accepted → List Handed
deal workers_count turn [] = []
deal workers_count turn (x ∷ rest) =
    handed turn x.conn_fd ∷ deal workers_count ((turn + 1) % workers_count) rest

next : (workers_count turn : ℕ) → turn < workers_count → (turn + 1) % workers_count < workers_count
next workers_count turn h = grind arith

accept_clients-deal :
    (workers_count turn : ℕ) (fds : List Accepted) (pkt : Packet)
    → AllInt fds
    → turn < workers_count
    → accept_clients workers_count turn fds pkt ≡ ok (deal workers_count turn fds)
unfolding accept_clients deal
accept_clients-deal workers_count turn [] pkt a h = refl
accept_clients-deal workers_count turn (x ∷ rest) pkt a h = rw (
  accept_round_lem workers_count turn x pkt a.0.0 a.0.1 h,
  accept_clients-deal workers_count ((turn + 1) % workers_count) rest pkt a.1
      (next workers_count turn h),
)

shift : (n t k : ℕ) → t < n → ((t + 1) % n + k) % n ≡ (t + suc k) % n
shift n t k h = mod-add-mod (t + 1) n k ∙ ap (λ m. m % n) (omega arith)

deal-turn :
    (workers_count turn k : ℕ) (y : Accepted) (fds : List Accepted)
    → turn < workers_count
    → get_elem? fds k ≡ some y
    → get_elem? (deal workers_count turn fds) k
      ≡ some (handed ((turn + k) % workers_count) y.conn_fd)
unfolding deal
deal-turn n turn k y [] h e = cc
deal-turn n turn zero y (x ∷ fds) h e =
    let here : turn ≡ (turn + 0) % n = sym (ap (λ m. m % n) (omega arith) ∙ mod-eq_of_lt h) in
    let same : x ≡ y = cc in
    ap (λ w. some (handed w x.conn_fd)) here
    ∙ ap (λ (d : Accepted). some (handed ((turn + 0) % n) d.conn_fd)) same
deal-turn n turn (suc k) y (x ∷ fds) h e =
    deal-turn n ((turn + 1) % n) k y fds (next n turn h) e
    ∙ ap (λ w. some (handed w y.conn_fd)) (shift n turn k h)

there_is :
    (fds : List Accepted) (k : ℕ) → k < length fds → (fd : Accepted) × (get_elem? fds k ≡ some fd)
there_is [] k h = absurd (omega arith)
there_is (x ∷ fds) zero h = (x, refl)
there_is (x ∷ fds) (suc k) h = there_is fds k (omega arith)

-- How many turns before worker `i`, from worker `c`.
wait : ℕ → ℕ → ℕ → ℕ
wait n c i = if ltb i c then i + n - c else i - c

wait-lt : (n c i : ℕ) → c < n → i < n → wait n c i < n
unfolding wait
wait-lt n c i h k = ground arith

wait_ends : (n c i : ℕ) → c < n → i < n → (c + wait n c i ≡ i) ⊎ (c + wait n c i ≡ i + n)
unfolding wait
wait_ends n c i h k = ground arith

turn_comes : (n c i : ℕ) → c < n → i < n → (c + wait n c i) % n ≡ i
turn_comes n c i h k = elim (wait_ends n c i h k) [
  | inl e ↦ ap (λ m. m % n) e ∙ mod-eq_of_lt k
  | inr e ↦ ap (λ m. m % n) e ∙ (add-mod_right i n ∙ mod-eq_of_lt k)
]

-- With at least one worker, whatever connections arrive, where no write to a pipe fails: they are dealt out, and of any
-- `workers_count` of them that arrive in a row, one goes to worker `i`, whichever worker that is, as
-- its own descriptor in a frame.
pub accept_clients-serves :
    (workers_count turn i start : ℕ) (fds : List Accepted) (pkt : Packet)
    → AllInt fds
    → turn < workers_count
    → i < workers_count
    → start + workers_count ≤ length fds
    → (outs : List Handed) × (k : ℕ) × (x : Accepted) × (accept_clients workers_count turn fds pkt
        ≡ ok outs)
      × (start ≤ k)
      × (k < start + workers_count)
      × (get_elem? fds k ≡ some x)
      × (get_elem? outs k ≡ some (handed i x.conn_fd))
accept_clients-serves n turn i start fds pkt a h k long =
    let c = (turn + start) % n in
    let below : c < n = mod-lt (turn + start) (omega arith) in
    let d = wait n c i in
    let short : d < n = wait-lt n c i below k in
    let (x, e) = there_is fds (start + d) (omega arith) in
    let whose : (turn + (start + d)) % n ≡ i =
      ap (λ m. m % n) (omega arith)
      ∙ (sym (mod-add-mod (turn + start) n d) ∙ turn_comes n c i below k) in
    (
      deal n turn fds,
      start + d,
      x,
      accept_clients-deal n turn fds pkt a h,
      omega arith,
      omega arith,
      e,
      deal-turn n turn (start + d) x fds h e ∙ ap (λ w. some (handed w x.conn_fd)) whose,
    )
