-- ===== src/Versioning/Pins/Located/Scan.antt =====
-- What the scan for a key of src/foundry/versioning/pins.py finds.
use agent_foundry.Prelude.{
  ℕ, zero, suc, ◌+◌, ◌≤◌, ◌<◌, ◌≡◌, inl, inr, refl, ap, ◌∙◌, Bool, true, false, ◌&&◌, Option, none,
  some, List, [], ◌∷◌, ◌++◌, arith, Bool-cases, ltb, eq_nat, ◌==◌, All, length, Text,
}
use agent_foundry.Versioning.Pins.{
  indent_of, stripped, no_content, is_key, or_indent, scan_child_key,
}
use agent_foundry.Versioning.Pins.Located.{has_content, FirstIndent}

module _ (is_space : ℕ → Bool) where
  -- The level is set already, or the first line sets it.
  abbrev pub LevelFrom : Option ℕ → ℕ → List Text → Type 0
  LevelFrom none indent lines = FirstIndent is_space indent lines
  LevelFrom (some child) indent lines = child ≡ indent

  -- What the scan finds, from a line on at which the level may be set.
  pub record Found (child : Option ℕ) (floor : ℕ) (key : Text) (n i : ℕ) (lines : List Text)
      (k indent : ℕ) : Type 0 where
    pub before : List Text
    pub line : Text
    pub after : List Text
    pub at : k ≡ i + length before
    pub indented : indent_of line ≡ indent
    pub split : lines ≡ before ++ line ∷ after
    pub within : length before < n
    pub content : has_content is_space line ≡ true
    pub keyed : is_key is_space key (stripped is_space line) ≡ true
    pub deep : All (λ l. has_content is_space l ≡ true → floor ≤ indent_of l) (before ++ line ∷ [])
    pub level : LevelFrom child indent (before ++ line ∷ [])
    pub first :
        All
          (λ l.
            has_content is_space l ≡ true
            → indent_of l ≡ indent
            → is_key is_space key (stripped is_space l) ≡ false)
          before

  Found-blank :
      (child : Option ℕ) (floor : ℕ) (key : Text) (n i : ℕ) (l : Text) (lines : List Text)
      (k indent : ℕ)
      → has_content is_space l ≡ false
      → Found child floor key n (i + 1) lines k indent
      → Found child floor key (suc n) i (l ∷ lines) k indent
  Found-blank child floor key n i l lines k indent blank f = record {
    before = l ∷ f.before;
    line = f.line;
    after = f.after;
    at = f.at ∙ omega arith;
    indented = f.indented;
    split = ap (λ ls. l ∷ ls) f.split;
    within = ground (arith, f.within);
    content = f.content;
    keyed = f.keyed;
    deep = (λ h. absurd (ground (arith, h, blank)), f.deep);
    level = level_of child f.level;
    first = (λ h _. absurd (ground (arith, h, blank)), f.first);
  }
    where
      level_of :
          (c : Option ℕ)
          → LevelFrom c indent (f.before ++ f.line ∷ [])
          → LevelFrom c indent (l ∷ f.before ++ f.line ∷ [])
      level_of none h = (λ g. absurd (ground (arith, g, blank)), λ _. h)
      level_of (some d) h = h

  Found-next :
      (child : Option ℕ) (floor : ℕ) (key : Text) (n i : ℕ) (l : Text) (lines : List Text)
      (k indent : ℕ)
      → has_content is_space l ≡ true
      → floor ≤ indent_of l
      → (indent_of l == or_indent is_space child (indent_of l)
          && is_key is_space key (stripped is_space l))
        ≡ false
      → Found (some (or_indent is_space child (indent_of l))) floor key n (i + 1) lines k indent
      → Found child floor key (suc n) i (l ∷ lines) k indent
  Found-next child floor key n i l lines k indent full deep other f = record {
    before = l ∷ f.before;
    line = f.line;
    after = f.after;
    at = f.at ∙ omega arith;
    indented = f.indented;
    split = ap (λ ls. l ∷ ls) f.split;
    within = ground (arith, f.within);
    content = f.content;
    keyed = f.keyed;
    deep = (λ _. deep, f.deep);
    level = level_of child f.level;
    first = (λ _ same. ground (arith, other, same, f.level), f.first);
  }
    where
      level_of :
          (c : Option ℕ)
          → or_indent is_space c (indent_of l) ≡ indent
          → LevelFrom c indent (l ∷ f.before ++ f.line ∷ [])
      level_of none h = (λ _. h, λ g. absurd (ground (arith, g, full)))
      level_of (some d) h = h

  Found-here :
      (child : Option ℕ) (floor : ℕ) (key : Text) (n i : ℕ) (l : Text) (lines : List Text)
      (k indent : ℕ)
      → has_content is_space l ≡ true
      → floor ≤ indent_of l
      → (indent_of l == or_indent is_space child (indent_of l)
          && is_key is_space key (stripped is_space l))
        ≡ true
      → i ≡ k
      → or_indent is_space child (indent_of l) ≡ indent
      → Found child floor key (suc n) i (l ∷ lines) k indent
  Found-here child floor key n i l lines k indent full deep here at is_indent = record {
    before = [];
    line = l;
    after = lines;
    at = omega (arith, at);
    indented = ground (arith, here, is_indent);
    split = refl;
    within = omega arith;
    content = full;
    keyed = ground (arith, here);
    deep = (λ _. deep, tt);
    level = level_of child is_indent;
    first = tt;
  }
    where
      level_of :
          (c : Option ℕ) → or_indent is_space c (indent_of l) ≡ indent → LevelFrom c indent (l ∷ [])
      level_of none h = (λ _. h, λ _. tt)
      level_of (some d) h = h

  pub scan_child_key-Found :
      (n i : ℕ) (child : Option ℕ) (floor : ℕ) (key : Text) (lines : List Text) (k indent : ℕ)
      → scan_child_key is_space n i child floor key lines ≡ some (k, indent)
      → Found child floor key n i lines k indent
  unfolding scan_child_key
  scan_child_key-Found zero i child floor key lines k indent h = absurd cc
  scan_child_key-Found (suc n) i child floor key [] k indent h = absurd cc
  scan_child_key-Found (suc n) i child floor key (l ∷ lines) k indent h =
      elim (Bool-cases (no_content is_space (stripped is_space l))) [
        | inl blank ↦ Found-blank child floor key n i l lines k indent (ground (arith, blank)) (
            scan_child_key-Found n (i + 1) child floor key lines k indent
              (ground (arith, h, blank)))
        | inr full ↦ elim (Bool-cases (ltb (indent_of l) floor)) [
          | inl out ↦ absurd (ground (arith, h, full, out))
          | inr deep ↦
              elim (Bool-cases (
                indent_of l == or_indent is_space child (indent_of l)
                && is_key is_space key (stripped is_space l))) [
                  | inl here ↦
                      Found-here child floor key n i l lines k indent (ground (arith, full))
                        (ground (arith, deep)) here (ground (arith, h, full, deep, here))
                        (ground (arith, h, full, deep, here))
                  | inr other ↦
                      Found-next child floor key n i l lines k indent (ground (arith, full))
                        (ground (arith, deep)) other
                        (scan_child_key-Found n (i + 1)
                          (some (or_indent is_space child (indent_of l))) floor key lines k indent
                          (ground (arith, h, full, deep, other)))
                ]
        ]
      ]
