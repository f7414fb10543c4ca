-- ===== src/Sctp/Writing.antt =====
-- The write loop of a connection: it ends, and what is written is what was given (src/network.cpp).
use sba_g_rpc_5g.Base.{
  ℕ, zero, suc, ◌+◌, ◌-◌, ◌^◌, ◌≤◌, ◌<◌, ◌≡◌, refl, sym, ap, ◌∙◌, ◌⊎◌, inl, inr, true, false, ◌||◌,
  leb, ltb, List, [], ◌∷◌, ◌++◌, length, take, drop, arith, ◌==◌, if◌then◌else◌, append_assoc,
  take-take-drop, drop-drop,
}
use sba_g_rpc_5g.Result.{ok}
use sba_g_rpc_5g.Bytes.{Bytes}
use sba_g_rpc_5g.Packet.View.{peek_lem}
use sba_g_rpc_5g.Sctp.{Write, took, full, broken, write_loop, write_stream}

-- Every call takes at least one byte.
abbrev pub AllTake : List Write → Type 0
AllTake [] = Unit {0}
AllTake (took zero ∷ calls) = ⊥
AllTake (took (suc n) ∷ calls) = AllTake calls
AllTake (full ∷ calls) = ⊥
AllTake (broken ∷ calls) = ⊥

ordinary : (n : ℕ) → 0 < n → n < 2 ^ 31 → (n == 0 || leb (2 ^ 31) n) ≡ false
ordinary n a b = ground arith

-- What a round takes of what is left.
part : ℕ → ℕ → ℕ
part left n = if ltb left (suc n) then left else suc n

part_bounds : (left n : ℕ) → 0 < left → (0 < part left n) × (part left n ≤ left)
unfolding part
part_bounds left n h = ground arith

done_or_left : (n : ℕ) → ((n == 0) ≡ true × (n ≡ 0)) ⊎ ((n == 0) ≡ false × (0 < n))
done_or_left zero = inl (refl, refl)
done_or_left (suc n) = inr (ground arith, omega arith)

join :
    (ptr k left : ℕ) (buf : Bytes)
    → k ≤ left
    → take k (drop ptr buf) ++ take (left - k) (drop (ptr + k) buf) ≡ take left (drop ptr buf)
join ptr k left buf h =
    ap (λ xs. take k (drop ptr buf) ++ take (left - k) xs) (sym (drop-drop ptr k buf))
    ∙ (take-take-drop k (left - k) (drop ptr buf) ∙ ap (λ m. take m (drop ptr buf)) (omega arith))

write_loop-ends :
    (len ptr left : ℕ) (buf out : Bytes) (calls : List Write)
    → 0 < left
    → ptr + left ≤ length buf
    → left ≤ length calls
    → AllTake calls
    → (used : List Write) × (rest : List Write) × (calls ≡ used ++ rest)
      × (length used ≤ left)
      × (write_loop len ptr left buf out calls ≡ ok (len, out ++ take left (drop ptr buf), rest))
unfolding write_loop part
write_loop-ends len ptr left buf out [] a b c d = absurd (omega arith)
write_loop-ends len ptr left buf out (full ∷ calls) a b c d = absurd d
write_loop-ends len ptr left buf out (broken ∷ calls) a b c d = absurd d
write_loop-ends len ptr left buf out (took zero ∷ calls) a b c d = absurd d
write_loop-ends len ptr left buf out (took (suc n) ∷ calls) a b c d =
    let k = part left n in
    let bounds = part_bounds left n a in
    elim (done_or_left (left - k)) [
      | inl (e, z) ↦ (
        took (suc n) ∷ [],
        calls,
        refl,
        omega arith,
        rw (peek_lem ptr k buf (omega (arith, bounds)), e)
            (ap (λ m. ok (len, out ++ take m (drop ptr buf), calls)) (omega (arith, z, bounds))),
      )
      | inr (e, more) ↦
          let ih =
            write_loop-ends len (ptr + k) (left - k) buf (out ++ take k (drop ptr buf)) calls more
              (omega (arith, bounds)) (omega (arith, bounds)) d in
          (
            took (suc n) ∷ ih.0,
            ih.1,
            ap (◌∷◌ (took (suc n))) ih.2,
            omega (arith, ih.3, bounds),
            rw (peek_lem ptr k buf (omega (arith, bounds)), e)
                (ih.4
                  ∙ ap (λ bs. ok (len, bs, ih.1))
                      (append_assoc out (take k (drop ptr buf))
                          (take (left - k) (drop (ptr + k) buf))
                        ∙ ap (◌++◌ out) (join ptr k left buf (bounds.1)))),
          )
    ]

-- A connection whose every call takes at least one byte: to write n bytes of a buffer that holds
-- them, n > 0 in the range of an int, takes at most n calls; the function reports n, and what has
-- been written is the first n bytes, in order.
pub write_stream-ends :
    (len : ℕ) (buf : Bytes) (calls : List Write)
    → 0 < len
    → len < 2 ^ 31
    → len ≤ length buf
    → len ≤ length calls
    → AllTake calls
    → (used : List Write) × (rest : List Write) × (calls ≡ used ++ rest)
      × (length used ≤ len)
      × (write_stream len buf calls ≡ ok (len, take len buf, rest))
unfolding write_stream
write_stream-ends len buf calls a b c d e =
    let loop = write_loop-ends len 0 len buf [] calls a (omega arith) d e in
    (loop.0, loop.1, loop.2, loop.3, rw (ordinary len a b) loop.4)
