-- ===== src/Fragment/Reassembly.antt =====
-- The fragments of a message put together again.
use nova_net.Prelude.{
  drop_all, ℕ, zero, suc, ◌+◌, ◌-◌, ◌*◌, ◌^◌, ◌≤◌, ◌<◌, ◌≡◌, ◌↔◌, sym, ap, ◌∙◌, List, [], ◌++◌,
  length, Option, none, some, arith, drop, min, length-drop, u64, take-append-drop, drop-drop,
}
use native.Mathlib.Decide.{dec_lt}
use native.Mathlib.Nat.{div-add-mod', mod-lt, div-eq_of_lt-le, zero-mul}
use nova_net.Wire.{Endian, load}
use nova_net.Fragment.{
  fragment_header_size, max_fragment_count, nn_fragment_build, nn_fragment_count,
}
use nova_net.Fragment.Build.{fragment_build_lem, slice_len}

-- The count of a message that is not empty is the least number of payloads that hold it, and is
-- given exactly when that is at most 255 and the payload has room. The sum of the two lengths is
-- below 2^64.
pub fragment_count_lem :
    (msg_len max_payload c : ℕ)
    → 0 < msg_len
    → msg_len + max_payload < 2 ^ 64
    → (nn_fragment_count msg_len max_payload ≡ some c) ↔ (
        (0 < max_payload)
        × (c ≤ max_fragment_count)
        × (msg_len ≤ c * max_payload)
        × (c * max_payload < msg_len + max_payload))
unfolding nn_fragment_count
fragment_count_lem msg_len max_payload c p q =
    let m : ℕ = msg_len + max_payload - 1 in
    let whole : u64 (u64 (msg_len + max_payload) + 2 ^ 64 - 1) ≡ m = omega arith in
    (
      (λ h. ground (arith, whole, div-add-mod' m max_payload, mod-lt m {m = max_payload})),
      (λ h. ground (arith, whole, div-eq_of_lt-le {k = c} max_payload {m = m})),
    )

-- Dropping a slice drops as much as dropping a whole payload.
drop_slice : (m : ℕ) (xs : List ℕ) → drop (min m (length xs)) xs ≡ drop m xs
drop_slice m xs = elim (dec_lt (length xs) m) [
  | yes h ↦ drop_all (min m (length xs)) xs (omega arith) ∙ sym (drop_all m xs (omega arith))
  | no h ↦ ap (λ (k : ℕ). drop k xs) (min_left m (length xs) (omega arith))
]
  where
    min_left : (a b : ℕ) → a ≤ b → min a b ≡ a
    min_left a b h = omega arith

-- A slice and what follows it.
next_slice :
    (i m : ℕ) (msg : List ℕ)
    → load msg (i * m) (min m (length msg - i * m)) ++ drop ((i + 1) * m) msg ≡ drop (i * m) msg
next_slice i m msg =
    ap (λ r. load msg (i * m) (min m (length msg - i * m)) ++ r) (sym rest)
    ∙ take-append-drop (min m (length msg - i * m)) (drop (i * m) msg)
  where
    step : (i m : ℕ) → i * m + m ≡ (i + 1) * m
    step i m = omega arith

    rest : drop (min m (length msg - i * m)) (drop (i * m) msg) ≡ drop ((i + 1) * m) msg
    rest =
        ap (λ (k : ℕ). drop (min m k) (drop (i * m) msg)) (sym (length-drop (i * m) msg))
        ∙ drop_slice m (drop (i * m) msg)
        ∙ drop-drop m (i * m) msg
        ∙ ap (λ (k : ℕ). drop k msg) (step i m)

before_last : (i n c m len : ℕ) → i + suc n ≡ c → c * m < len + m → i * m ≤ len
before_last i n c m len e p = grind arith

-- The payload of a fragment in front of those behind it.
abbrev pub join_payload : Option (ℕ × List ℕ) → Option (List ℕ) → Option (List ℕ)
join_payload none rest = none
join_payload (some built) none = none
join_payload (some (len, out)) (some rest) =
    some (load out fragment_header_size (len - fragment_header_size) ++ rest)

-- Take the next `n` payloads, in order from fragment `i` on, out of fragments built with `out_buf`.
module _ (host : Endian) (msg : List ℕ) (id c max_payload : ℕ) (out_buf : List ℕ) where
  pub collect : ℕ → ℕ → Option (List ℕ)
  collect zero i = some []
  collect (suc n) i =
      join_payload (nn_fragment_build host msg (length msg) id i c max_payload out_buf)
        (collect n (i + 1))

  last : (i c : ℕ) → i + 0 ≡ c → i ≡ c
  last i c e = omega arith

  module _ (small : length msg < 2 ^ 31 - 6) (room : 6 + max_payload ≤ length out_buf)
      (id_fits : id < 2 ^ 32) (count_fits : c < 256) where
    -- The payloads from fragment `i` on are the rest of the message.
    collect-rest :
        (n i : ℕ)
        → i + n ≡ c
        → c * max_payload < length msg + max_payload
        → length msg ≤ c * max_payload
        → collect n i ≡ some (drop (i * max_payload) msg)
    unfolding collect
    collect-rest zero i e p q =
        ap some (sym (drop_all (i * max_payload) msg (rw (← last i c e) at q)))
    collect-rest (suc n) i e p q =
        let inside : i * max_payload ≤ length msg =
          before_last i n c max_payload (length msg) e p in
        let k = slice_len host msg id i c max_payload out_buf in
        let (out, made, same, front, payload) =
          fragment_build_lem host msg id i c max_payload out_buf
            (record { id_fits = id_fits; index_in = omega arith; count_fits = count_fits }) inside
            small room in
        let trim : 6 + k - 6 ≡ k = omega arith in
        rw (made, collect-rest n (i + 1) (omega arith) p q, trim, payload)
          (ap some (next_slice i max_payload msg))

-- A message that is not empty, is shorter than 2^31 - 6 bytes and that the count accepts is cut,
-- in a buffer with room for a header and a payload, into fragments whose payloads, in order, are
-- the message: none of the `c` fragments is refused, no byte is lost or sent twice. The identifier
-- is of 32 bits and the buffer shorter than 2^63 bytes.
pub reassembly :
    (host : Endian) (msg : List ℕ) (id c max_payload : ℕ) (out_buf : List ℕ)
    → 0 < length msg
    → length msg < 2 ^ 31 - 6
    → 6 + max_payload ≤ length out_buf
    → length out_buf < 2 ^ 63
    → id < 2 ^ 32
    → nn_fragment_count (length msg) max_payload ≡ some c
    → collect host msg id c max_payload out_buf c 0 ≡ some msg
reassembly host msg id c max_payload out_buf pos small room fits id_fits e =
    let (has_room, count_fits, enough, least) =
      (fragment_count_lem (length msg) max_payload c pos (omega arith)).0 e in
    collect-rest host msg id c max_payload out_buf small room id_fits (omega arith) c 0
      (omega arith) least enough
    ∙ ap (λ (k : ℕ). some (drop k msg)) (zero-mul max_payload)
