-- ===== src/Core/Cache.antt =====
-- src/foundry/core/cache.py, `scoped_input_hash`. A text is the list of its code points.

mod Tests
use mathlib.Core.List.{append_cancel_left}
use agent_foundry.Prelude.{
  ℕ, ◌≡◌, refl, String, List, [], ◌∷◌, ◌++◌, arith, length, ap, append_assoc, ◌∙◌, sym,
  length-append, suc, zero, ◌+◌,
}
pub use agent_foundry.Prelude.{Text, codes}

pub data CacheScope : Type 0 where
  agent project global : CacheScope

qualifier : CacheScope → Text → Text → Text
qualifier agent p a = codes "agent:" ++ (p ++ (codes "/" ++ a))
qualifier project p a = codes "project:" ++ p
qualifier global p a = codes "global"

unfoldable pub scoped_input_hash : CacheScope → Text → Text → Text → Text
unfolding qualifier
scoped_input_hash scope p a hashed = qualifier scope p a ++ (codes ":" ++ hashed)

cons-inj : {x y : ℕ} {xs ys : List ℕ} → x ∷ xs ≡ y ∷ ys → (x ≡ y) × (xs ≡ ys)
cons-inj e = ground arith

-- Two texts that end in equally long parts are equal only part by part.
append-cancel :
    (xs ys us vs : Text) → length us ≡ length vs → xs ++ us ≡ ys ++ vs → (xs ≡ ys) × (us ≡ vs)
append-cancel [] [] us vs h e = (refl, e)
append-cancel [] (y ∷ ys) us vs h e = absurd (omega (arith, ap length e, length-append {0} ys vs))
append-cancel (x ∷ xs) [] us vs h e = absurd (omega (arith, ap length e, length-append {0} xs us))
append-cancel (x ∷ xs) (y ∷ ys) us vs h e =
    let (head, rest) = cons-inj e in
    let (same, tails) = append-cancel xs ys us vs h rest in (ground arith, tails)

-- Keys of the scope `project` whose hashes are equally long, as the hashes that the program makes
-- are, coincide only for one project and one hash: no result is found from another project.
pub project_scope_separates :
    (p p' a a' h h' : Text)
    → length h ≡ length h'
    → scoped_input_hash project p a h ≡ scoped_input_hash project p' a' h'
    → (p ≡ p') × (h ≡ h')
unfolding scoped_input_hash
project_scope_separates p p' a a' h h' same e =
    let (front, back) =
      append-cancel (codes "project:" ++ p) (codes "project:" ++ p') (codes ":" ++ h)
        (codes ":" ++ h') (ap suc same) e in
    (append_cancel_left (codes "project:") p p' front, append_cancel_left (codes ":") h h' back)

abbrev first : Text → ℕ
first [] = 0
first (c ∷ cs) = c

-- A key of one scope is no key of another.
pub scopes_disjoint :
    (p p' a a' h h' : Text)
    → (¬ (scoped_input_hash agent p a h ≡ scoped_input_hash project p' a' h'))
      × (¬ (scoped_input_hash agent p a h ≡ scoped_input_hash global p' a' h'))
      × (¬ (scoped_input_hash project p a h ≡ scoped_input_hash global p' a' h'))
unfolding scoped_input_hash
scopes_disjoint p p' a a' h h' = (
  λ e. absurd (omega (arith, ap first e)),
  λ e. absurd (omega (arith, ap first e)),
  λ e. absurd (omega (arith, ap first e)),
)
