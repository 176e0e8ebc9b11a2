-- ===== src/SignCasts/Signs.antt =====
-- castIfNeeded: when the cast gives the operand the signedness asked for, and when it cannot.
use llvm2c.Prelude.{
  arith, Bool, true, false, not, ◌≡◌, ◌≢◌, refl, ap, subst, none, some, inl, inr, Bool-cases,
}
use llvm2c.Types.{CType}
use llvm2c.Types.Kinds.{integer_signedness}
use llvm2c.TypeHandler.Signedness.{IsUnpaired, toggle_signedness-unpaired, toggle_signedness-effect}
use llvm2c.Exprs.{Expr, TypeRef, get_type, unary, cast_expr}
use llvm2c.RedundantCasts.{signedness}
use llvm2c.SignCasts.{toggle_ref, needs_cast, cast_if_needed}

-- A type of the other signedness is in one of the pairs that toggleSignedness knows.
abbrev pub HasPartner : Bool → TypeRef → Type 0
HasPartner u t = needs_cast (signedness t) u ≡ true → toggle_ref t ≢ t

needs_cast-opposite : (u : Bool) → needs_cast (some (not u)) u ≡ true
unfolding needs_cast
needs_cast-opposite true = refl
needs_cast-opposite false = refl

needs_cast-same : (u : Bool) → needs_cast (some u) u ≡ false
unfolding needs_cast
needs_cast-same true = refl
needs_cast-same false = refl

needs_cast-toggle :
    (u v : Bool) → needs_cast (some u) v ≡ true → needs_cast (some (not u)) v ≡ false
unfolding needs_cast
needs_cast-toggle true v h = ground (arith)
needs_cast-toggle false v h = ground (arith)

pub toggle_ref-fits :
    (t : TypeRef) (u : Bool)
    → HasPartner u t
    → needs_cast (signedness t) u ≡ true
    → needs_cast (signedness (toggle_ref t)) u ≡ false
unfolding toggle_ref signedness
toggle_ref-fits none u p h = absurd (p h refl)
toggle_ref-fits (some t) u p h = elim (toggle_signedness-effect t) [
  | inl (e, _, _, _) ↦ absurd (p h (ap some e))
  | inr (_, _, (v, ev, ew)) ↦
      rw ew (needs_cast-toggle v u (subst (λ s. needs_cast s u ≡ true) ev h))
]

-- With a partner at hand, the operand has afterwards the signedness asked for, or is no integer.
pub cast_if_needed-fits :
    (e : Expr) (u : Bool)
    → HasPartner u (get_type e)
    → needs_cast (signedness (get_type (cast_if_needed e u))) u ≡ false
unfolding cast_if_needed
cast_if_needed-fits e u p = elim (Bool-cases (needs_cast (signedness (get_type e)) u)) [
  | inl h ↦ rw h (unfold get_type in toggle_ref-fits (get_type e) u p h)
  | inr h ↦ rw h h
]

-- What fits is left alone.
pub cast_if_needed-fitting :
    (e : Expr) (u : Bool) → needs_cast (signedness (get_type e)) u ≡ false → cast_if_needed e u ≡ e
unfolding cast_if_needed
cast_if_needed-fitting e u h = rw h refl

toggle_ref-unpaired : (t : CType) → IsUnpaired t → toggle_ref (some t) ≡ some t
unfolding toggle_ref
toggle_ref-unpaired t un = ap some (toggle_signedness-unpaired t un)

signedness-some :
    (t : CType) (u : Bool)
    → integer_signedness t ≡ some (not u)
    → signedness (some t) ≡ some (not u)
unfolding signedness
signedness-some t u h = h

cast_to_itself :
    (e : Expr) (u : Bool) (t : CType)
    → IsUnpaired t
    → get_type e ≡ some t
    → integer_signedness t ≡ some (not u)
    → cast_if_needed e u ≡ unary cast_expr e (some t)
unfolding cast_if_needed
cast_to_itself e u t un et st = rw (differs, et) (ap (unary cast_expr e) (toggle_ref-unpaired t un))
  where
    differs : needs_cast (signedness (get_type e)) u ≡ true
    differs = rw (et, signedness-some t u st) (needs_cast-opposite u)

get_type-cast : (e : Expr) (t : TypeRef) → get_type (unary cast_expr e t) ≡ t
unfolding get_type
get_type-cast e t = refl

-- An integer type in none of the pairs is not changed: an operand of such a type and the wrong
-- signedness gets a cast to its own type, and keeps the wrong signedness.
pub cast_if_needed-unpaired :
    (e : Expr) (u : Bool) (t : CType)
    → IsUnpaired t
    → get_type e ≡ some t
    → integer_signedness t ≡ some (not u)
    → (cast_if_needed e u ≡ unary cast_expr e (some t))
      × (needs_cast (signedness (get_type (cast_if_needed e u))) u ≡ true)
cast_if_needed-unpaired e u t un et st = (
  cast_to_itself e u t un et st,
  rw (cast_to_itself e u t un et st, get_type-cast e (some t), signedness-some t u st)
      (needs_cast-opposite u),
)
