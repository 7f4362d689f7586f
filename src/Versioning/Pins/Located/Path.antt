-- ===== src/Versioning/Pins/Located/Path.antt =====
-- The line that src/foundry/versioning/pins.py locates for a path is the one that the path leads to.
use agent_foundry.Prelude.{
  ℕ, zero, suc, ◌+◌, ◌-◌, ◌≡◌, inl, inr, refl, sym, ap, subst, ◌∙◌, Bool, true, false, none, some,
  List, [], ◌∷◌, ◌++◌, arith, Bool-cases, Option-cases, leb, eq_nat, All, length, Text,
}
use agent_foundry.Versioning.Pins.{
  drop, indent_of, stripped, no_content, is_key, scan_child_key, block_end, locate,
}
use agent_foundry.Versioning.Pins.Located.{has_content, FirstIndent, Child, Block, LeadsTo}
use agent_foundry.Versioning.Pins.Located.Scan.{Found, scan_child_key-Found}

module _ (is_space : ℕ → Bool) where
  block_end-Block :
      (i indent : ℕ) (lines : List Text)
      → (m : ℕ) × ((block_end is_space i indent lines ≡ i + m) × Block is_space indent m lines)
  unfolding block_end
  block_end-Block i indent [] = (0, (omega arith, tt))
  block_end-Block i indent (l ∷ lines) =
      let (m, (end, block)) = block_end-Block (i + 1) indent lines in
      elim (Bool-cases (no_content is_space (stripped is_space l))) [
        | inl blank ↦
            (suc m, (ground (arith, blank, end), (λ h. absurd (ground (arith, h, blank)), block)))
        | inr full ↦ elim (Bool-cases (leb (indent_of l) indent)) [
          | inl out ↦ (0, (ground (arith, full, out), (ground (arith, full), ground (arith, out))))
          | inr within ↦
              (suc m, (ground (arith, full, within, end), (λ _. ground (arith, within), block)))
        ]
      ]

  drop-nothing : (n : ℕ) → drop n [] ≡ []
  unfolding drop
  drop-nothing zero = refl
  drop-nothing (suc n) = refl

  drop-add : (a b : ℕ) (lines : List Text) → drop (a + b) lines ≡ drop b (drop a lines)
  unfolding drop
  drop-add zero b lines = ap (λ n. drop n lines) (omega arith)
  drop-add (suc a) b [] = drop-nothing (suc a + b) ∙ sym (drop-nothing b)
  drop-add (suc a) b (l ∷ lines) =
      let sum : suc a + b ≡ suc (a + b) = omega arith in
      ap (λ n. drop n (l ∷ lines)) sum ∙ drop-add a b lines

  drop-append :
      (before after : List Text) (line : Text)
      → drop (suc (length before)) (before ++ line ∷ after) ≡ after
  unfolding drop
  drop-append [] after line = refl
  drop-append (b ∷ before) after line = drop-append before after line

  drop-behind :
      (lo : ℕ) (lines rest before after : List Text) (line : Text)
      → drop lo lines ≡ rest
      → rest ≡ before ++ line ∷ after
      → drop (lo + length before + 1) lines ≡ after
  drop-behind lo lines rest before after line at split =
      let sum : lo + length before + 1 ≡ lo + suc (length before) = omega arith in
      ap (λ n. drop n lines) sum
      ∙ (drop-add lo (suc (length before)) lines
          ∙ (ap (drop (suc (length before))) (at ∙ split) ∙ drop-append before after line))

  abbrev child_of :
      (floor : ℕ) (key : Text) (n i : ℕ) (lines : List Text) (k indent : ℕ)
      → Found is_space none floor key n i lines k indent
      → Child is_space floor key n lines
  child_of floor key n i lines k indent f = record {
    before = f.before;
    line = f.line;
    after = f.after;
    split = f.split;
    within = f.within;
    content = f.content;
    keyed = f.keyed;
    deep = f.deep;
    level = subst (λ d. FirstIndent is_space d (f.before ++ f.line ∷ [])) (sym f.indented) f.level;
    first =
        subst
          (λ d.
            All
              (λ l.
                has_content is_space l ≡ true
                → indent_of l ≡ d
                → is_key is_space key (stripped is_space l) ≡ false)
              f.before)
          (sym f.indented) f.first;
  }

  -- The line that is located is one that the path leads to.
  pub locate-LeadsTo :
      (path : List Text) (key : Text) (lo hi floor : ℕ) (lines rest : List Text) (i : ℕ)
      → drop lo lines ≡ rest
      → locate is_space path key lo hi floor lines ≡ some i
      → (k : ℕ) × ((i ≡ lo + k) × LeadsTo is_space path key floor (hi - lo) rest k)
  unfolding locate
  locate-LeadsTo [] key lo hi floor lines rest i at h =
      elim (Option-cases (scan_child_key is_space (hi - lo) lo none floor key (drop lo lines))) [
        | inl missing ↦ absurd (ground (arith, h, missing))
        | inr ((k, indent), found) ↦
            let f = scan_child_key-Found is_space (hi - lo) lo none floor key rest k indent (
              subst
                (λ ls. scan_child_key is_space (hi - lo) lo none floor key ls ≡ some (k, indent)) at
                found) in
            (
              length f.before,
              (
                ground (arith, h, found, f.at),
                (child_of floor key (hi - lo) lo rest k indent f, refl),
              ),
            )
      ]
  locate-LeadsTo (segment ∷ path) key lo hi floor lines rest i at h =
      elim (Option-cases
        (scan_child_key is_space (hi - lo) lo none floor segment (drop lo lines))) [
          | inl missing ↦ absurd (ground (arith, h, missing))
          | inr ((k, indent), found) ↦
              let f = scan_child_key-Found is_space (hi - lo) lo none floor segment rest k indent (
                subst
                  (λ ls.
                    scan_child_key is_space (hi - lo) lo none floor segment ls ≡ some (k, indent))
                  at found) in
              let behind : drop (k + 1) lines ≡ f.after =
                ap (λ n. drop (n + 1) lines) f.at
                ∙ drop-behind lo lines rest f.before f.after f.line at f.split in
              let (m, (end, block)) = block_end-Block (k + 1) indent (drop (k + 1) lines) in
              let next : locate is_space path key (k + 1)
                    (block_end is_space (k + 1) indent (drop (k + 1) lines)) (indent + 1) lines
                  ≡ some i =
                ground (arith, h, found) in
              let (k', (at_k, leads)) =
                locate-LeadsTo path key (k + 1)
                  (block_end is_space (k + 1) indent (drop (k + 1) lines)) (indent + 1) lines
                  f.after i behind next in
              let size : block_end is_space (k + 1) indent (drop (k + 1) lines) - (k + 1) ≡ m =
                omega (arith, end) in
              let deeper : indent + 1 ≡ suc (indent_of f.line) = omega (arith, f.indented) in
              (
                length f.before + suc k',
                (
                  omega (arith, at_k, f.at),
                  (
                    child_of floor segment (hi - lo) lo rest k indent f,
                    (
                      m,
                      (
                        subst (λ ls. Block is_space (indent_of f.line) m ls) behind
                            (subst (λ d. Block is_space d m (drop (k + 1) lines)) (sym f.indented)
                              block),
                        (
                          k',
                          (
                            subst (λ d. LeadsTo is_space path key d m f.after k') deeper
                                (subst (λ n. LeadsTo is_space path key (indent + 1) n f.after k')
                                  size leads),
                            refl,
                          ),
                        ),
                      ),
                    ),
                  ),
                ),
              )
        ]
