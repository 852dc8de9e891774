-- ===== src/Ffi/Valid.antt =====
-- The structs behind the handles, over all calls.
use nova_net.Prelude.{ℕ, ◌==◌, if◌then◌else◌, ◌≡◌, Option, none, some}
use mathlib.Core.Option
use nova_net.Congestion.Double.{Double}
use nova_net.Bandwidth.{Constants}
use nova_net.Ffi.{Kind, Object, Heap}
use nova_net.Ffi.Good.{IsGood, IsSane}
use nova_net.Ffi.Shape.{Shape}
use nova_net.Ffi.Calls.{Call, run}

-- Every struct in the heap is well formed.
abbrev pub IsSound : {F : Type 0} → Heap F → Type 0
IsSound {F = F} h = (p : ℕ) (o : Object F) → (h p).object ≡ some o → IsGood o

-- A new block, which may take the place of one that is no longer used.
unfoldable pub allocate : {F : Type 0} → Heap F → ℕ → ℕ → Heap F
allocate h p bytes q = if p == q then record { bytes = bytes; object = none } else h q

module _ {F : Type 0} (double : Double F) (constants : Constants F) (size_of : Kind → ℕ) where
  -- The heaps that a program of these calls can reach, where the sizes of the packets that it sends
  -- are not negative.
  pub data Reach : Heap F → Type 0 where
    nothing : Reach (λ p. record { bytes = 0; object = none })
    allocates : {h : Heap F} (p bytes : ℕ) → Reach h → Reach (allocate h p bytes)
    calls :
        {h h' : Heap F} (c : Call F)
        → IsSane c
        → Reach h
        → run double constants size_of c h ≡ some h'
        → Reach h'
