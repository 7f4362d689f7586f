-- ===== src/Versioning/Pins/Located.antt =====
-- The line that a path of keys leads to in a file of src/foundry/versioning/pins.py, said without the
-- scan: each key stands at the level of the first line of its block, and the block of a key is the
-- lines behind it that are indented further.
pub mod Scan
pub mod Path
use agent_foundry.Prelude.{
  ℕ, zero, suc, ◌+◌, ◌-◌, ◌≤◌, ◌<◌, ◌≡◌, inl, inr, refl, sym, ap, subst, ◌∙◌, Bool, true, false,
  not, ◌&&◌, Option, none, some, List, [], ◌∷◌, ◌++◌, arith, Bool-cases, Option-cases, ltb, leb,
  eq_nat, ◌==◌, All, length, Text,
}
use agent_foundry.Versioning.Pins.{
  drop, indent_of, stripped, no_content, is_key, or_indent, scan_child_key, block_end, locate,
}

module _ (is_space : ℕ → Bool) where
  -- A line with content, which is none of the empty ones and the comments.
  abbrev pub has_content : Text → Bool
  has_content line = not (no_content is_space (stripped is_space line))

  -- The first line with content has this indent.
  abbrev pub FirstIndent : ℕ → List Text → Type 0
  FirstIndent indent [] = Unit
  FirstIndent indent (l ∷ lines) =
      (has_content l ≡ true → indent_of l ≡ indent)
      × (has_content l ≡ false → FirstIndent indent lines)

  -- A line among the first n that has the key, at the level of the first line of the block, behind
  -- lines that are as deep as the block, of which none at that level has the key.
  pub record Child (floor : ℕ) (key : Text) (n : ℕ) (lines : List Text) : Type 0 where
    pub before : List Text
    pub line : Text
    pub after : List Text
    pub split : lines ≡ before ++ line ∷ after
    pub within : length before < n
    pub content : has_content line ≡ true
    pub keyed : is_key is_space key (stripped is_space line) ≡ true
    pub deep : All (λ l. has_content l ≡ true → floor ≤ indent_of l) (before ++ line ∷ [])
    pub level : FirstIndent (indent_of line) (before ++ line ∷ [])
    pub first :
        All
          (λ l.
            has_content l ≡ true
            → indent_of l ≡ indent_of line
            → is_key is_space key (stripped is_space l) ≡ false)
          before

  -- The first n of the lines are the block of a key with this indent: they are indented further, and
  -- the line behind them is not.
  abbrev pub Block : ℕ → ℕ → List Text → Type 0
  Block indent zero [] = Unit
  Block indent (suc n) [] = ⊥
  Block indent zero (l ∷ lines) = (has_content l ≡ true) × (indent_of l ≤ indent)
  Block indent (suc n) (l ∷ lines) =
      (has_content l ≡ true → indent < indent_of l) × Block indent n lines

  -- From the first n lines on, the path leads to the line with index k.
  abbrev pub LeadsTo : List Text → Text → ℕ → ℕ → List Text → ℕ → Type 0
  LeadsTo [] key floor n lines k = (c : Child floor key n lines) × (k ≡ length c.before)
  LeadsTo (segment ∷ path) key floor n lines k =
      (c : Child floor segment n lines) × ((m : ℕ) × (Block (indent_of c.line) m c.after
          × ((k' : ℕ) × (LeadsTo path key (suc (indent_of c.line)) m c.after k'
                × (k ≡ length c.before + suc k')))))
