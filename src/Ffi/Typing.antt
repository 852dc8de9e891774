-- ===== src/Ffi/Typing.antt =====
-- Calls on handles that were allocated for the struct in question.
use mathlib.Core.Option
use nova_net.Prelude.{
  ℕ, ◌≤◌, ◌≡◌, refl, sym, ap, ◌∙◌, subst, Bool, false, Option, some, List, [], ◌∷◌,
}
use native.Mathlib.Decide.{ℕ_discrete}
use nova_net.Congestion.Double.{Double}
use nova_net.Bandwidth.{Constants}
use nova_net.Ffi.{Kind, Object, Heap, View, kind_of, put, fetch}
use nova_net.Ffi.Access.{put_same, put_other, put_bytes, fetch_total, modify_read, install_fits}
use nova_net.Ffi.Good.{IsSane}
use nova_net.Ffi.Shape.{Shape, installs, modifies, modifies_both, modify_both_read, run-Shape}
use nova_net.Ffi.Calls.{Call, uses, is_init, run}

-- What each handle was allocated for: its block is large enough, and no other struct is in it.
pub record IsTyped {F : Type 0} (size_of : Kind → ℕ) (kinds : ℕ → Option Kind) (h : Heap F)
    : Type 0 where
  pub fits : (p : ℕ) (k : Kind) → kinds p ≡ some k → size_of k ≤ (h p).bytes
  pub agrees : (p : ℕ) (o : Object F) → (h p).object ≡ some o → kinds p ≡ some (kind_of o)

abbrev pub HasKinds : (ℕ → Option Kind) → List (ℕ × Kind) → Type 0
HasKinds kinds [] = Unit
HasKinds kinds ((p, k) ∷ us) = (kinds p ≡ some k) × HasKinds kinds us

abbrev pub IsInitialised : {F : Type 0} → Heap F → ℕ → Type 0
IsInitialised {F = F} h p = (o : Object F) × ((h p).object ≡ some o)

abbrev pub IsReady : {F : Type 0} → Heap F → List (ℕ × Kind) → Type 0
IsReady h [] = Unit
IsReady h ((p, k) ∷ us) = IsInitialised h p × IsReady h us

put-IsTyped :
    {F : Type 0} (size_of : Kind → ℕ) (kinds : ℕ → Option Kind) (h : Heap F) (p : ℕ) (o : Object F)
    → kinds p ≡ some (kind_of o)
    → IsTyped size_of kinds h
    → IsTyped size_of kinds (put h p o)
put-IsTyped size_of kinds h p o e v = record {
  fits = λ q k f. rw (put_bytes h p q o) (v.fits q k f);
  agrees = λ q o' f. elim (ℕ_discrete p q) [
    | yes same ↦ same_block q o' same f
    | no other ↦ v.agrees q o' (ap (λ b. b.object) (sym (put_other h p q o other)) ∙ f)
  ];
}
  where
    same_block :
        (q : ℕ) (o' : Object _)
        → p ≡ q
        → (put h p o q).object ≡ some o'
        → kinds q ≡ some (kind_of o')
    same_block q o' same f =
        let here = subst (λ r. (put h p o r).object ≡ some o') (sym same) f in
        let written = put_same h p o in
        let equal = Option.some-injective o o' (sym written ∙ here) in
        ap kinds (sym same) ∙ e ∙ ap (λ x. some (kind_of x)) equal

put-IsInitialised :
    {F : Type 0} (h : Heap F) (p q : ℕ) (o : Object F)
    → IsInitialised h q
    → IsInitialised (put h p o) q
put-IsInitialised h p q o r = elim (ℕ_discrete p q) [
  | yes same ↦ (o, ap (λ r. (put h p o r).object) (sym same) ∙ put_same h p o)
  | no other ↦ (r.0, ap (λ b. b.object) (put_other h p q o other) ∙ r.1)
]

fetch_ready :
    {F S : Type 0} (size_of : Kind → ℕ) (kinds : ℕ → Option Kind) (view : View F S) (h : Heap F)
    (p : ℕ)
    → IsTyped size_of kinds h
    → kinds p ≡ some view.kind
    → IsInitialised h p
    → (s : S) × (fetch view h p ≡ some s)
fetch_ready size_of kinds view h p v e (o, there) =
    fetch_total view h p o there
      (Option.some-injective (kind_of o) view.kind (sym (v.agrees p o there) ∙ e))

-- The heap after a call: it is there, still typed, and no struct is gone.
abbrev pub Succeeds :
    {F : Type 0}
    → (Kind → ℕ)
    → (ℕ → Option Kind)
    → Heap F
    → List (ℕ × Kind)
    → Option (Heap F)
    → Type 0
Succeeds {F = F} size_of kinds h us r =
    (h' : Heap F) × (r ≡ some h')
    × IsTyped size_of kinds h'
    × IsReady h' us
    × ((q : ℕ) → IsInitialised h q → IsInitialised h' q)

Shape-Succeeds :
    {F : Type 0} (size_of : Kind → ℕ) (sane : Type 0) (kinds : ℕ → Option Kind) (h : Heap F)
    (us : List (ℕ × Kind)) (b : Bool) (act : Heap F → Option (Heap F))
    → Shape size_of sane us b act
    → IsTyped size_of kinds h
    → HasKinds kinds us
    → (b ≡ false → IsReady h us)
    → Succeeds size_of kinds h us (act h)
Shape-Succeeds size_of sane kinds h us b act (installs view p s g) v (e, _) ready =
    let h' = put h p (view.wrap s) in
    (
      h',
      install_fits size_of view h p s (v.fits p view.kind e),
      put-IsTyped size_of kinds h p (view.wrap s) (e ∙ ap some (sym (view.kind-wrap s))) v,
      ((view.wrap s, put_same h p (view.wrap s)), tt),
      λ q i. put-IsInitialised h p q (view.wrap s) i,
    )
Shape-Succeeds size_of sane kinds h us b act (modifies view p f g) v (e, _) ready =
    let (there, _) = ready refl in
    let (s, read) = fetch_ready size_of kinds view h p v e there in
    let o' = view.wrap (f s) in
    (
      put h p o',
      modify_read view h p f s read,
      put-IsTyped size_of kinds h p o' (e ∙ ap some (sym (view.kind-wrap (f s)))) v,
      ((o', put_same h p o'), tt),
      λ q i. put-IsInitialised h p q o' i,
    )
Shape-Succeeds size_of sane kinds h us b act (modifies_both x y p q f g) v (e, (e', _)) ready =
    let (there, (there', _)) = ready refl in
    let (s, read) = fetch_ready size_of kinds x h p v e there in
    let (t, read') = fetch_ready size_of kinds y h q v e' there' in
    let o = x.wrap (f s t).0 in
    let o' = y.wrap (f s t).1 in
    let v' = put-IsTyped size_of kinds h p o (e ∙ ap some (sym (x.kind-wrap (f s t).0))) v in
    (
      put (put h p o) q o',
      modify_both_read x y h p q f s t read read',
      put-IsTyped size_of kinds (put h p o) q o' (e' ∙ ap some (sym (y.kind-wrap (f s t).1))) v',
      (
        put-IsInitialised (put h p o) q p o' (o, put_same h p o),
        ((o', put_same (put h p o) q o'), tt),
      ),
      λ r i. put-IsInitialised (put h p o) q r o' (put-IsInitialised h p r o i),
    )

-- In a heap where each handle holds at most the struct that it was allocated for, in a block of at
-- least its size, a call on handles of the right structs, initialised unless the call is the one that
-- initialises, does not fault: it ends in such a heap, in which its handles are initialised and every
-- handle that was still is.
pub run-Succeeds :
    {F : Type 0} (double : Double F) (constants : Constants F) (size_of : Kind → ℕ)
    (kinds : ℕ → Option Kind) (h : Heap F) (c : Call F)
    → IsTyped size_of kinds h
    → HasKinds kinds (uses c)
    → (is_init c ≡ false → IsReady h (uses c))
    → Succeeds size_of kinds h (uses c) (run double constants size_of c h)
run-Succeeds double constants size_of kinds h c =
    Shape-Succeeds size_of (IsSane c) kinds h (uses c) (is_init c) (run double constants size_of c)
      (run-Shape double constants size_of c)
