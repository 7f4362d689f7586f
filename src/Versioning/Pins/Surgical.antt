-- ===== src/Versioning/Pins/Surgical.antt =====
-- An edit of a pin in src/foundry/versioning/pins.py replaces one value and keeps all else.
use agent_foundry.Prelude.{
  ℕ, ◌≤◌, ◌≡◌, refl, sym, ap, ◌∙◌, Bool, true, false, some, List, [], ◌∷◌, ◌++◌, append_assoc,
  eq_nat, length, Text, every,
}
use agent_foundry.Versioning.Pins.Located.{LeadsTo}
use agent_foundry.Versioning.Pins.{
  empty_text, is_newline, is_no_hash, split_end, concat, match_head,
}

-- A line of `splitlines` ends with at most one newline.
abbrev pub OneNewline : Text → Type 0
OneNewline line = length (split_end is_newline line).1 ≤ 1

concat-append : (xs ys : List Text) → concat (xs ++ ys) ≡ concat xs ++ concat ys
concat-append [] ys = refl
concat-append (x ∷ xs) ys =
    ap (λ s. x ++ s) (concat-append xs ys) ∙ sym (append_assoc x (concat xs) (concat ys))

module _ (is_space : ℕ → Bool) where
  -- A line that is edited, in its parts: what precedes the value begins with the key and its colon,
  -- the value is replaced, and the rest is kept.
  pub record EditedLine (key new_value line line' old : Text) : Type 0 where
    pub head : Text
    pub comment : Text
    pub end : Text
    pub before : line ≡ head ++ (old ++ (comment ++ end))
    pub after : line' ≡ head ++ (new_value ++ (comment ++ end))
    pub is_value : empty_text old ≡ false
    pub no_hash : every is_no_hash old ≡ true
    pub keyed : match_head is_space key (head ++ (old ++ comment)) ≡ some (head, old ++ comment)

  -- What an edit of a text does: at the line of the path the value is replaced, and all else is kept.
  pub record Surgical (lines path : List Text) (key new_value text text' old : Text) : Type 0 where
    pub above : List Text
    pub line : Text
    pub line' : Text
    pub below : List Text
    pub leads : LeadsTo is_space path key 0 (length lines) lines (length above)
    pub before : text ≡ concat (above ++ line ∷ below)
    pub after : text' ≡ concat (above ++ line' ∷ below)
    pub edited : EditedLine key new_value line line' old
