-- ===== src/Sctp/Workers.antt =====
-- A round of a worker: which connections are served, in which order, and which are left
-- (src/sctp_server.cpp).
use sba_g_rpc_5g.Base.{
  ℕ, ltb, ◌^◌, ◌<◌, ◌≤◌, ◌≡◌, refl, sym, ap, ◌∙◌, Bool, Option, none, some, List, [], ◌∷◌, ◌++◌,
  length, drop, arith, ◌==◌, if◌then◌else◌, append_assoc, drop-append,
}
use mathlib.Core.Path.{subst}
use sba_g_rpc_5g.Result.{ok, exit_failure, require, bind_ok}
use sba_g_rpc_5g.Packet.{Packet, extract_int}
use sba_g_rpc_5g.Packet.Numbers.{extract_number-view}
use sba_g_rpc_5g.Bytes.{encode}
use sba_g_rpc_5g.Sctp.Framing.{Delivers, read_packet-Delivers}
use sba_g_rpc_5g.Sctp.{Read, read_packet}
use sba_g_rpc_5g.Sctp.Server.{
  Worker, int_rank, max, max_ele_from, max_ele, take_connection, serve_loop, worker_round,
}

abbrev pub AllLe : ℕ → List ℕ → Type 0
AllLe m [] = Unit {0}
AllLe m (x ∷ xs) = (int_rank x ≤ int_rank m) × AllLe m xs

-- The bound that select(2) is given covers the pipe and every connection, in the order of int.
pub record IsCovered (w : Worker) : Type 0 where
  pub pipe : int_rank w.pipe_fd ≤ int_rank w.max_fd
  pub connections : AllLe w.max_fd w.conn_fds

AllLe-mono : (m n : ℕ) (xs : List ℕ) → int_rank m ≤ int_rank n → AllLe m xs → AllLe n xs
AllLe-mono m n [] h a = tt
AllLe-mono m n (x ∷ xs) h a = (omega (arith, a.0), AllLe-mono m n xs h a.1)

AllLe-append : (m : ℕ) (xs ys : List ℕ) → AllLe m xs → AllLe m ys → AllLe m (xs ++ ys)
AllLe-append m [] ys a b = b
AllLe-append m (x ∷ xs) ys a b = (a.0, AllLe-append m xs ys a.1 b)

max_bounds : (a b : ℕ) → (int_rank a ≤ int_rank (max a b)) × (int_rank b ≤ int_rank (max a b))
max_bounds a b = ground arith

max_ele_from-AllLe :
    (ans : ℕ) (xs : List ℕ)
    → (int_rank ans ≤ int_rank (max_ele_from ans xs)) × AllLe (max_ele_from ans xs) xs
unfolding max_ele_from
max_ele_from-AllLe ans [] = (omega arith, tt)
max_ele_from-AllLe ans (x ∷ xs) =
    let ih = max_ele_from-AllLe (max ans x) xs in
    let b = max_bounds ans x in (omega (arith, ih.0, b), (omega (arith, ih.0, b), ih.1))

closed-IsCovered :
    (w : Worker) (left : List ℕ)
    → IsCovered (record w { conn_fds = left; max_fd = max w.pipe_fd (max_ele left) })
unfolding max_ele
closed-IsCovered w left =
    let b = max_bounds w.pipe_fd (max_ele_from 0 left) in
    record {
      pipe = b.0;
      connections = AllLe-mono (max_ele_from 0 left) _ left b.1 (max_ele_from-AllLe 0 left).1;
    }

hired-IsCovered :
    (w : Worker) (conn_fd : ℕ)
    → IsCovered w
    → IsCovered (record w { conn_fds = w.conn_fds ++ conn_fd ∷ []; max_fd = max w.max_fd conn_fd })
hired-IsCovered w conn_fd c =
    let b = max_bounds w.max_fd conn_fd in
    record {
      pipe = omega (arith, c.pipe, b);
      connections =
          AllLe-append (max w.max_fd conn_fd) w.conn_fds (conn_fd ∷ [])
            (AllLe-mono w.max_fd (max w.max_fd conn_fd) w.conn_fds b.0 c.connections) (b.1, tt);
    }

take_connection-IsCovered :
    (calls calls' : List Read) (pkt : Packet) (w w' : Worker)
    → IsCovered w
    → take_connection calls pkt w ≡ ok (w', calls')
    → IsCovered w'
unfolding take_connection
take_connection-IsCovered calls calls' pkt w w' c e =
    let (read, e1, e2) = bind_ok (read_packet calls pkt) _ e in
    let (status, e5, e6) = bind_ok (require (ltb read.0 (2 ^ 31)) exit_failure) _ e2 in
    let (fd, e3, e4) = bind_ok (extract_int read.1) _ e6 in
    let same : record w { conn_fds = w.conn_fds ++ fd.0 ∷ []; max_fd = max w.max_fd fd.0 } ≡ w' =
      cc in
    subst IsCovered same (hired-IsCovered w fd.0 c)

-- A connection that the accepting thread has written to the pipe, in whatever pieces it is read.
take_connection-Delivers :
    (calls1 calls2 after : List Read) (pkt : Packet) (w : Worker) (conn_fd : ℕ)
    → conn_fd < 2 ^ 32
    → Delivers (encode 4 4) calls1
    → Delivers (encode 4 conn_fd) calls2
    → take_connection (calls1 ++ (calls2 ++ after)) pkt w
      ≡ ok
          (record w { conn_fds = w.conn_fds ++ conn_fd ∷ []; max_fd = max w.max_fd conn_fd }, after)
unfolding take_connection extract_int
take_connection-Delivers calls1 calls2 after pkt w conn_fd h d1 d2 = rw (
  read_packet-Delivers pkt (encode 4 conn_fd) calls1 calls2 after (omega arith) (omega arith) d1 d2,
  extract_number-view 4 conn_fd pkt [] [] h,
)

module _ {S : Type 0} (serve_client : S → ℕ → S × ℕ) (ready : ℕ → Bool) where
  serve_loop-IsCovered :
      (kept old added : List ℕ) (w : Worker) (s : S)
      → IsCovered w
      → IsCovered (serve_loop serve_client ready kept old added w s).1
  unfolding serve_loop
  serve_loop-IsCovered kept [] added w s c = c
  serve_loop-IsCovered kept (conn_fd ∷ rest) added w s c =
      let step = if ready conn_fd then serve_client s conn_fd else (s, 1) in
      let left = kept ++ (rest ++ added) in
      let w1 = record w { conn_fds = left; max_fd = max w.pipe_fd (max_ele left) } in
      ground (
        arith,
        serve_loop-IsCovered kept rest added w1 step.0 (closed-IsCovered w left),
        serve_loop-IsCovered (kept ++ conn_fd ∷ []) rest added w step.0 c,
      )

  -- A round of a worker that does not end the process keeps the bound over the pipe and every
  -- connection, whatever connection comes from the pipe, whichever are ready and whatever the handler
  -- says of them.
  pub worker_round-IsCovered :
      (new : Option (List Read)) (pkt : Packet) (w w' : Worker) (s s' : S)
      → IsCovered w
      → worker_round serve_client new pkt ready w s ≡ ok (s', w')
      → IsCovered w'
  unfolding worker_round
  worker_round-IsCovered none pkt w w' s s' c e =
      let same : (serve_loop serve_client ready [] w.conn_fds [] w s).1 ≡ w' = cc in
      subst IsCovered same (serve_loop-IsCovered [] w.conn_fds [] w s c)
  worker_round-IsCovered (some calls) pkt w w' s s' c e =
      let (hired, e1, e2) = bind_ok (take_connection calls pkt w) _ e in
      let added = drop (length w.conn_fds) hired.0.conn_fds in
      let same : (serve_loop serve_client ready [] w.conn_fds added hired.0 s).1 ≡ w' = cc in
      subst IsCovered same (
        serve_loop-IsCovered [] w.conn_fds added hired.0 s
          (take_connection-IsCovered calls hired.1 pkt w hired.0 c e1))

  -- The plain reading of a round: each ready connection is served, in order, and stays unless the
  -- handler answers 0.
  unfoldable pub serve_ready : S → List ℕ → S × List ℕ
  serve_ready s [] = (s, [])
  serve_ready s (conn_fd ∷ rest) =
      let (s', status) = if ready conn_fd then serve_client s conn_fd else (s, 1) in
      let (s'', left) = serve_ready s' rest in (s'', if status == 0 then left else conn_fd ∷ left)

  serve_loop-serve_ready :
      (kept old added : List ℕ) (w : Worker) (s : S)
      → w.conn_fds ≡ kept ++ (old ++ added)
      → let plain = serve_ready s old in
        let run = serve_loop serve_client ready kept old added w s in
        (run.0 ≡ plain.0) × (run.1.conn_fds ≡ kept ++ (plain.1 ++ added))
  unfolding serve_loop serve_ready
  serve_loop-serve_ready kept [] added w s e = (refl, e)
  serve_loop-serve_ready kept (conn_fd ∷ rest) added w s e =
      let step = if ready conn_fd then serve_client s conn_fd else (s, 1) in
      let left = kept ++ (rest ++ added) in
      let w1 = record w { conn_fds = left; max_fd = max w.pipe_fd (max_ele left) } in
      let plain = serve_ready step.0 rest in
      let more : w.conn_fds ≡ (kept ++ conn_fd ∷ []) ++ (rest ++ added) =
        e ∙ sym (append_assoc kept (conn_fd ∷ []) (rest ++ added)) in
      ground (
        arith,
        serve_loop-serve_ready kept rest added w1 step.0 refl,
        serve_loop-serve_ready (kept ++ conn_fd ∷ []) rest added w step.0 more,
        append_assoc kept (conn_fd ∷ []) (plain.1 ++ added),
      )

  -- A round in which the pipe has a connection, in whatever pieces it is read: it is the plain
  -- reading of a round on the connections that the worker had, and the new connection stands behind
  -- those that are left, unserved in this round.
  pub worker_round-serve_ready :
      (calls1 calls2 after : List Read) (pkt : Packet) (w : Worker) (s : S) (conn_fd : ℕ)
      → conn_fd < 2 ^ 32
      → Delivers (encode 4 4) calls1
      → Delivers (encode 4 conn_fd) calls2
      → let plain = serve_ready s w.conn_fds in
        (w' : Worker) × (worker_round serve_client
            (some (calls1 ++ (calls2 ++ after)))
            pkt
            ready
            w
            s
          ≡ ok (plain.0, w'))
        × (w'.conn_fds ≡ plain.1 ++ conn_fd ∷ [])
  unfolding worker_round
  worker_round-serve_ready calls1 calls2 after pkt w s conn_fd h d1 d2 =
      let new = conn_fd ∷ [] in
      let w1 = record w { conn_fds = w.conn_fds ++ new; max_fd = max w.max_fd conn_fd } in
      let run = serve_loop-serve_ready [] w.conn_fds new w1 s refl in
      let w' = (serve_loop serve_client ready [] w.conn_fds new w1 s).1 in
      (
        w',
        rw
            (
              take_connection-Delivers calls1 calls2 after pkt w conn_fd h d1 d2,
              drop-append (length w.conn_fds) w.conn_fds new refl,
            )
            (ap (λ t. ok (t, w')) run.0),
        run.1,
      )
