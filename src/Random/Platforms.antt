-- ===== src/Random/Platforms.antt =====
-- cbits/nn_random.c on every platform; the calls of the systems are parameters.
use nova_net.Prelude.{
  ℕ, zero, suc, ◌+◌, ◌-◌, ◌^◌, ◌<◌, ◌≤◌, ◌≡◌, ◌≢◌, ◌⊎◌, inl, inr, refl, ap, List, [], ◌++◌, Option,
  none, some, ltb, ◌==◌, false, Bool-cases, if◌then◌else◌, arith,
}
use nova_net.Random.{
  Outcome, filled, aborted, stuck, getentropy_max, prepend, after, random_loop, nn_random_bytes,
}

pub data Platform : Type 0 where
  bsd linux windows : Platform

-- `ULONG_MAX` on Windows, whose `ULONG` has 32 bits.
abbrev pub ulong_max : ℕ
ulong_max = 4294967295

-- The status of the call is 0 when it has filled the buffer.
pub after_status : {W : Type 0} → W × ℕ × List ℕ → Outcome W
after_status (w, status, bytes) = if status == 0 then filled w bytes else aborted w

module _ {W : Type 0} (arc4random_buf : W → ℕ → W × List ℕ)
    (getentropy : W → ℕ → W × Option (List ℕ)) (bcrypt_gen_random : W → ℕ → W × ℕ × List ℕ) where
  pub random_bytes_on : Platform → W → ℕ → Outcome W
  random_bytes_on bsd w len = let (w', bytes) = arc4random_buf w len in filled w' bytes
  random_bytes_on linux w len = nn_random_bytes getentropy w len
  random_bytes_on windows w len =
      if ltb ulong_max len then aborted w else after_status (bcrypt_gen_random w len)

  -- The calls of `getentropy` that fill a buffer one after another, with 1 to 256 bytes asked for in
  -- each: the states between them, the number of bytes that is asked for in all, and the chunks joined.
  pub data Draws : W → ℕ → W → List ℕ → Type 0 where
    no_draw : {w : W} → Draws w 0 w []
    draws :
        {w w' w'' : W} {chunk rest : List ℕ} {n m total : ℕ}
        → 0 < n
        → n ≤ 256
        → total ≡ n + m
        → getentropy w n ≡ (w', some chunk)
        → Draws w' m w'' rest
        → Draws w total w'' (chunk ++ rest)

  -- Calls that succeed, and after them one that fails before the buffer is full.
  pub data Breaks : W → ℕ → W → Type 0 where
    breaks :
        {w w' w'' : W} {bytes : List ℕ} {drawn n total : ℕ}
        → Draws w drawn w' bytes
        → 0 < n
        → n ≤ 256
        → drawn + n ≤ total
        → getentropy w' n ≡ (w'', none)
        → Breaks w total w''

  -- What the source means the end of a call to say of what the system did.
  abbrev pub IsAsGiven : Platform → W → ℕ → Outcome W → Type 0
  IsAsGiven bsd w len (filled w' bytes) = arc4random_buf w len ≡ (w', bytes)
  IsAsGiven bsd w len (aborted w') = ⊥
  IsAsGiven bsd w len stuck = ⊥
  IsAsGiven linux w len (filled w' bytes) = Draws w len w' bytes
  IsAsGiven linux w len (aborted w') = Breaks w len w'
  IsAsGiven linux w len stuck = ⊥
  IsAsGiven windows w len (filled w' bytes) =
      (len ≤ 2 ^ 32 - 1) × (bcrypt_gen_random w len ≡ (w', 0, bytes))
  IsAsGiven windows w len (aborted w') =
      ((2 ^ 32 - 1 < len) × (w' ≡ w))
      ⊎ ((len ≤ 2 ^ 32 - 1)
          × ((bcrypt_gen_random w len).0 ≡ w')
          × ((bcrypt_gen_random w len).1 ≢ 0))
  IsAsGiven windows w len stuck = ⊥

  Breaks-later :
      {w w' w'' : W} {chunk : List ℕ} {n m total : ℕ}
      → 0 < n
      → n ≤ 256
      → total ≡ n + m
      → getentropy w n ≡ (w', some chunk)
      → Breaks w' m w''
      → Breaks w total w''
  Breaks-later p q e got (breaks first r s t failed) =
      breaks (draws p q refl got first) r s (omega (arith, e)) failed

  -- A chunk, and the end of the rest.
  IsAsGiven-after :
      (w : W) (n m total : ℕ) (rest : Outcome W)
      → 0 < n
      → n ≤ 256
      → total ≡ n + m
      → (w' : W) (o : Option (List ℕ)) → getentropy w n ≡ (w', o)
      → IsAsGiven linux w' m rest
      → IsAsGiven linux w total (after w' o rest)
  unfolding after prepend
  IsAsGiven-after w n m total rest p q e w' none got h = breaks no_draw p q (omega arith) got
  IsAsGiven-after w n m total (filled w'' bytes) p q e w' (some chunk) got h = draws p q e got h
  IsAsGiven-after w n m total (aborted w'') p q e w' (some chunk) got h = Breaks-later p q e got h
  IsAsGiven-after w n m total stuck p q e w' (some chunk) got h = h

  random_loop-IsAsGiven :
      (fuel : ℕ) (w : W) (len : ℕ)
      → len < fuel
      → IsAsGiven linux w len (random_loop getentropy fuel w len)
  unfolding random_loop
  random_loop-IsAsGiven zero w len h = absurd (omega arith)
  random_loop-IsAsGiven (suc fuel) w zero h = no_draw
  random_loop-IsAsGiven (suc fuel) w (suc n) h =
      let chunk : ℕ = (if ltb (suc n) getentropy_max then suc n else getentropy_max) in
      let some_byte : 0 < chunk = ground arith in
      let few : chunk ≤ 256 = ground arith in
      let within : suc n ≡ chunk + (suc n - chunk) = ground arith in
      IsAsGiven-after w chunk (suc n - chunk) (suc n) _ some_byte few within _ _ refl (
        random_loop-IsAsGiven fuel (getentropy w chunk).0 (suc n - chunk)
          (omega (arith, some_byte, within)))

  after_status-IsAsGiven :
      (w : W) (len : ℕ) (got : W × ℕ × List ℕ)
      → bcrypt_gen_random w len ≡ got
      → len ≤ ulong_max
      → IsAsGiven windows w len (after_status got)
  unfolding after_status
  after_status-IsAsGiven w len (w', zero, bytes) e h = (h, e)
  after_status-IsAsGiven w len (w', suc status, bytes) e h =
      let given : (bcrypt_gen_random w len).1 ≡ suc status = ap (λ r. r.1) e in
      let failed : (suc status == 0) ≡ false = ground arith in
      rw failed (inr (h, ap (λ r. r.0) e, λ z. omega (arith, given, z)))

  -- On every platform, whatever the calls of the system give, the call ends. If it returns, the buffer
  -- holds the bytes that the system gave for the whole length: of the one call on the BSDs; on Linux of
  -- a chain of `getentropy` calls that all succeeded, of 1 to 256 bytes each and of the length in all;
  -- on Windows of the one call, whose status was 0, for a length that fits a `ULONG`. It aborts only
  -- on Linux, at a `getentropy` call that failed, and on Windows, for a length of 2^32 or more or at
  -- a status other than 0; never on the BSDs.
  pub random_bytes_on-IsAsGiven :
      (platform : Platform) (w : W) (len : ℕ)
      → IsAsGiven platform w len (random_bytes_on platform w len)
  unfolding random_bytes_on after_status nn_random_bytes
  random_bytes_on-IsAsGiven bsd w len = refl
  random_bytes_on-IsAsGiven linux w len = random_loop-IsAsGiven (len + 1) w len (omega arith)
  random_bytes_on-IsAsGiven windows w len = elim (Bool-cases (ltb ulong_max len)) [
    | inl long ↦ rw long (inl (ground arith, refl))
    | inr short ↦
        rw short (after_status-IsAsGiven w len (bcrypt_gen_random w len) refl (ground arith))
  ]
