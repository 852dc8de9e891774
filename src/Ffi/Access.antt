-- ===== src/Ffi/Access.antt =====
-- What reading and writing a struct behind a handle does.
use mathlib.Core.Option
use nova_net.Prelude.{ℕ, ◌≤◌, ◌≡◌, ◌≢◌, refl, ap, ◌∙◌, inl, inr, Bool-cases, true, some, leb, arith}
use nova_net.Ffi.{Kind, Object, Heap, View, kind_of, put, fetch, modify, install}

pub put_same : {F : Type 0} (h : Heap F) (p : ℕ) (o : Object F) → (put h p o p).object ≡ some o
unfolding put
put_same h p o = ground arith

pub put_other : {F : Type 0} (h : Heap F) (p q : ℕ) (o : Object F) → p ≢ q → put h p o q ≡ h q
unfolding put
put_other h p q o n = ground (arith, n)

pub put_bytes :
    {F : Type 0} (h : Heap F) (p q : ℕ) (o : Object F) → (put h p o q).bytes ≡ (h q).bytes
unfolding put
put_bytes h p q o = ground arith

pub fetch-some :
    {F S : Type 0} (view : View F S) (h : Heap F) (p : ℕ) (s : S)
    → fetch view h p ≡ some s
    → (h p).object ≡ some (view.wrap s)
unfolding fetch
fetch-some view h p s e =
    let (o, there, read) = (Option.bind-eq-some_iff (h p).object view.unwrap).0 e in
    there ∙ ap some (view.wrap-unwrap o s read)

pub fetch_total :
    {F S : Type 0} (view : View F S) (h : Heap F) (p : ℕ) (o : Object F)
    → (h p).object ≡ some o
    → kind_of o ≡ view.kind
    → (s : S) × (fetch view h p ≡ some s)
unfolding fetch Option.bind
fetch_total view h p o there same =
    let (s, read) = view.unwrap_kind o same in (s, ap (λ x. Option.bind x view.unwrap) there ∙ read)

-- A call that is not refused has read a struct and written the new one in its place.
pub modify-read_some :
    {F S : Type 0} (view : View F S) (h h' : Heap F) (p : ℕ) (f : S → S)
    → modify view h p f ≡ some h'
    → (s : S) × (fetch view h p ≡ some s) × (put h p (view.wrap (f s)) ≡ h')
unfolding modify
modify-read_some view h h' p f e =
    (Option.map-eq-some_iff (λ s. put h p (view.wrap (f s))) (fetch view h p)).0 e

pub install-some :
    {F S : Type 0} (size_of : Kind → ℕ) (view : View F S) (h h' : Heap F) (p : ℕ) (s : S)
    → install size_of view h p s ≡ some h'
    → (size_of view.kind ≤ (h p).bytes) × (put h p (view.wrap s) ≡ h')
unfolding install
install-some size_of view h h' p s e = elim (Bool-cases (leb (size_of view.kind) (h p).bytes)) [
  | inl b ↦ (ground arith, cc)
  | inr b ↦ absurd cc
]

pub modify_read :
    {F S : Type 0} (view : View F S) (h : Heap F) (p : ℕ) (f : S → S) (s : S)
    → fetch view h p ≡ some s
    → modify view h p f ≡ some (put h p (view.wrap (f s)))
unfolding modify
modify_read view h p f s e = ap (Option.map (λ s. put h p (view.wrap (f s)))) e

pub install_fits :
    {F S : Type 0} (size_of : Kind → ℕ) (view : View F S) (h : Heap F) (p : ℕ) (s : S)
    → size_of view.kind ≤ (h p).bytes
    → install size_of view h p s ≡ some (put h p (view.wrap s))
unfolding install
install_fits size_of view h p s fits =
    let large : leb (size_of view.kind) (h p).bytes ≡ true = ground arith in rw large refl

pub put_agrees :
    {F : Type 0} (h k : Heap F) (p q : ℕ) (o : Object F)
    → h p ≡ k p
    → h q ≡ k q
    → put h p o q ≡ put k p o q
unfolding put
put_agrees h k p q o e e' = rw (e, e') refl

pub fetch_agrees :
    {F S : Type 0} (view : View F S) (h k : Heap F) (p : ℕ)
    → h p ≡ k p
    → fetch view h p ≡ fetch view k p
unfolding fetch
fetch_agrees view h k p e = rw e refl
