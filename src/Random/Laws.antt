-- ===== src/Random/Laws.antt =====
-- The loop ends, and fills the buffer when the system call does not fail.
use nova_net.Prelude.{
  subst, ℕ, zero, suc, ◌+◌, ◌-◌, ◌<◌, ◌≤◌, ◌≡◌, ◌≢◌, refl, ap₂, List, [], ◌++◌, length,
  length-append, Option, none, some, ltb, if◌then◌else◌, arith,
}
use nova_net.Random.{
  getentropy_max, Outcome, filled, aborted, stuck, prepend, after, random_loop, nn_random_bytes,
}

-- Anything but running out of fuel.
abbrev IsEnd : {W : Type 0} → Outcome W → Type 0
IsEnd (filled w bytes) = Unit
IsEnd (aborted w) = Unit
IsEnd stuck = ⊥

prepend-IsEnd :
    {W : Type 0} (chunk : List ℕ) (out : Outcome W) → IsEnd out → IsEnd (prepend chunk out)
unfolding prepend
prepend-IsEnd chunk (filled w bytes) h = tt
prepend-IsEnd chunk (aborted w) h = tt
prepend-IsEnd chunk stuck h = h

after-IsEnd :
    {W : Type 0} (w : W) (got : Option (List ℕ)) (rest : Outcome W)
    → IsEnd rest
    → IsEnd (after w got rest)
unfolding after
after-IsEnd w none rest h = tt
after-IsEnd w (some bytes) rest h = prepend-IsEnd bytes rest h

abbrev chunk_of : ℕ → ℕ
chunk_of len = if ltb len getentropy_max then len else getentropy_max

chunk-bounds :
    (len : ℕ) → 0 < len → (0 < chunk_of len) × (chunk_of len ≤ len) × (chunk_of len ≤ 256)
chunk-bounds len h = ground arith

module _ {W : Type 0} (getentropy : W → ℕ → W × Option (List ℕ)) where
  loop-IsEnd : (fuel : ℕ) (w : W) (len : ℕ) → len < fuel → IsEnd (random_loop getentropy fuel w len)
  unfolding random_loop
  loop-IsEnd zero w len h = absurd (omega arith)
  loop-IsEnd (suc fuel) w zero h = tt
  loop-IsEnd (suc fuel) w (suc n) h =
      let got = getentropy w (chunk_of (suc n)) in
      let rest = random_loop getentropy fuel got.0 (suc n - chunk_of (suc n)) in
      let ih =
        loop-IsEnd fuel got.0 (suc n - chunk_of (suc n)) (omega (arith, chunk-bounds (suc n))) in
      after-IsEnd got.0 got.1 rest ih

  -- The call ends for every length and whatever the system call does: the fuel does not run out.
  pub random_bytes_ends : (w : W) (len : ℕ) → nn_random_bytes getentropy w len ≢ stuck
  unfolding nn_random_bytes
  random_bytes_ends w len e = subst IsEnd e (loop-IsEnd (len + 1) w len (omega arith))

  module _
      (success : (w : W) (n : ℕ)
        → 0 < n
        → n ≤ 256
        → (bytes : List ℕ) × ((getentropy w n).1 ≡ some bytes) × (length bytes ≡ n)) where
    loop-filled :
        (fuel : ℕ) (w : W) (len : ℕ)
        → len < fuel
        → (w' : W) × (bytes : List ℕ) × (random_loop getentropy fuel w len ≡ filled w' bytes)
          × (length bytes ≡ len)
    unfolding random_loop after prepend
    loop-filled zero w len h = absurd (omega arith)
    loop-filled (suc fuel) w zero h = (w, [], refl, refl)
    loop-filled (suc fuel) w (suc n) h =
        let c = chunk_of (suc n) in
        let bounds = chunk-bounds (suc n) (omega arith) in
        let (bytes, e, size) = success w c bounds.0 bounds.2 in
        let (w', rest, e', size') =
          loop-filled fuel (getentropy w c).0 (suc n - c) (omega (arith, bounds)) in
        (
          w',
          bytes ++ rest,
          ap₂ (after (getentropy w c).0) e e',
          omega (arith, bounds, size, size', length-append bytes rest),
        )

    -- If the system call fills every request of 1 to 256 bytes, then the call ends with a buffer of the
    -- length that was asked for. No promise on longer requests is used: none is made.
    pub random_bytes-filled :
        (w : W) (len : ℕ)
        → (w' : W) × (bytes : List ℕ) × (nn_random_bytes getentropy w len ≡ filled w' bytes)
          × (length bytes ≡ len)
    unfolding nn_random_bytes
    random_bytes-filled w len = loop-filled (len + 1) w len (omega arith)
