-- ===== src/Versioning/Pins.antt =====
-- src/foundry/versioning/pins.py: edits of version pins in the text of a file. Texts are lists of code
-- points. `str.splitlines` with its line ends kept, and the test for whitespace of `str.strip` and of
-- `\s`, are arguments. An indent is counted from 1 where it bounds a block from below, since the
-- source starts with -1.
mod Tests
pub mod Located
pub mod Surgical
pub mod Transaction
use agent_foundry.Prelude.{
  ℕ, zero, suc, ◌+◌, ◌-◌, ◌≤◌, String, ◌≡◌, refl, Bool, true, false, not, ◌&&◌, ◌||◌, Option, none,
  some, List, [], ◌∷◌, ◌++◌, if◌then◌else◌, Result, ok, err, ◌>>=◌, ltb, leb, eq_nat, ◌==◌, length,
  Text, codes, strip, split_while,
}

abbrev pub empty_text : Text → Bool
empty_text [] = true
empty_text (c ∷ s) = false

abbrev pub begins_with : ℕ → Text → Bool
begins_with c [] = false
begins_with c (d ∷ s) = d == c

-- A text without its last letters that pass the test, and these.
unfoldable pub split_end : (ℕ → Bool) → Text → Text × Text
split_end test [] = ([], [])
split_end test (c ∷ s) =
    let (front, end) = split_end test s in
    if test c && empty_text front then ([], c ∷ end) else (c ∷ front, end)

abbrev pub is_blank : ℕ → Bool
is_blank c = c == 32

abbrev pub is_newline : ℕ → Bool
is_newline c = c == 10

abbrev pub is_no_hash : ℕ → Bool
is_no_hash c = not (c == 35)

-- `_indent_of`
unfoldable pub indent_of : Text → ℕ
indent_of line = length (split_while is_blank (length line) line).0

unfoldable pub drop : ℕ → List Text → List Text
drop zero ls = ls
drop (suc n) [] = []
drop (suc n) (l ∷ ls) = drop n ls

-- `lines[i]`, with the lines before and after it.
unfoldable pub line_at : ℕ → List Text → Option (List Text × (Text × List Text))
line_at n [] = none
line_at zero (l ∷ ls) = some ([], (l, ls))
line_at (suc n) (l ∷ ls) = elim (line_at n ls) [
  | none ↦ none
  | some (before, (line, after)) ↦ some (l ∷ before, (line, after))
]

abbrev pub concat : List Text → Text
concat [] = []
concat (l ∷ ls) = l ++ concat ls

pub data PinError : Type 0 where
  not_located not_a_scalar file_not_found invalid_version nothing_staged would_be_invalid : PinError
  write_failed : PinError

module _ (is_space : ℕ → Bool) where
  unfoldable pub stripped : Text → Text
  stripped s = (split_end is_space (split_while is_space (length s) s).1).0

  -- Is a stripped line empty or a comment?
  abbrev pub no_content : Text → Bool
  no_content s = empty_text s || begins_with 35 s

  -- `\s*:` and what precedes it, after the key.
  abbrev pub colon : Text → Text × Text → Option (Text × Text)
  colon head (spaces, []) = none
  colon head (spaces, c ∷ s) =
      let (more, rest) = split_while is_space (length s) s in
      if c == 58 then some (head ++ (spaces ++ (58 ∷ more)), rest) else none

  abbrev pub after_key : Text → Text → Option Text → Option (Text × Text)
  after_key spaces key none = none
  after_key spaces key (some s) = colon (spaces ++ key) (split_while is_space (length s) s)

  -- The group `head`, and the text behind it. At the beginning of a stripped line it is the test of
  -- `_scan_child_key`.
  unfoldable pub match_head : Text → Text → Option (Text × Text)
  match_head key s =
      let (spaces, rest) = split_while is_space (length s) s in
      after_key spaces key (strip key rest)

  abbrev pub is_key : Text → Text → Bool
  is_key key s = elim (match_head key s) [ none ↦ false | some _ ↦ true ]

  -- `child_indent`, once it is set.
  abbrev pub or_indent : Option ℕ → ℕ → ℕ
  or_indent none indent = indent
  or_indent (some child) indent = child

  -- `_scan_child_key`: over so many lines, the first of which has the index i.
  unfoldable pub scan_child_key : ℕ → ℕ → Option ℕ → ℕ → Text → List Text → Option (ℕ × ℕ)
  scan_child_key zero i child floor key lines = none
  scan_child_key (suc n) i child floor key [] = none
  scan_child_key (suc n) i child floor key (l ∷ lines) =
      let indent = indent_of l in
      let blank = scan_child_key n (i + 1) child floor key lines in
      let next = scan_child_key n (i + 1) (some (or_indent child indent)) floor key lines in
      if no_content (stripped l)
      then blank
      else if ltb indent floor
      then none
      else if indent == or_indent child indent && is_key key (stripped l)
      then some (i, or_indent child indent)
      else next

  -- `_block_end`: the first of the lines has the index i.
  unfoldable pub block_end : ℕ → ℕ → List Text → ℕ
  block_end i key_indent [] = i
  block_end i key_indent (l ∷ lines) =
      let later = block_end (i + 1) key_indent lines in
      if no_content (stripped l) then later else if leb (indent_of l) key_indent then i else later

  -- The loop over the segments of the path: the index of the last one's line.
  unfoldable pub locate : List Text → Text → ℕ → ℕ → ℕ → List Text → Option ℕ
  locate [] key lo hi floor lines =
      elim (scan_child_key (hi - lo) lo none floor key (drop lo lines)) [
        | none ↦ none
        | some (i, indent) ↦ some i
      ]
  locate (segment ∷ path) key lo hi floor lines =
      elim (scan_child_key (hi - lo) lo none floor segment (drop lo lines)) [
        | none ↦ none
        | some (i, indent) ↦
            locate path key (i + 1) (block_end (i + 1) indent (drop (i + 1) lines)) (indent + 1)
              lines
      ]

  -- The groups `value` and `tail`.
  abbrev pub value_and_tail : Text → Text × Text
  value_and_tail s =
      let (front, comment) = split_while is_no_hash (length s) s in
      let (value, spaces) = split_end is_space front in (value, spaces ++ comment)

  -- The end of a line that `lines[idx]` may have.
  abbrev pub newline_of : Text → Text
  newline_of [] = []
  newline_of (c ∷ s) = 10 ∷ []

  abbrev pub edited_line : Text → Text → Option (Text × Text) → Result PinError (Text × Text)
  edited_line end new_value none = err not_a_scalar
  edited_line end new_value (some (head, s)) =
      let (value, tail) = value_and_tail s in
      if empty_text value
      then err not_a_scalar
      else ok (head ++ (new_value ++ (tail ++ newline_of end)), value)

  -- The edited line, and the old value.
  unfoldable pub edit_line : Text → Text → Text → Result PinError (Text × Text)
  edit_line key new_value line =
      let (body, end) = split_end is_newline line in edited_line end new_value (match_head key body)

  abbrev pub put_line :
      Text → Text → Option (List Text × (Text × List Text)) → Result PinError (Text × Text)
  put_line key new_value none = err not_located
  put_line key new_value (some (before, (line, after))) =
      edit_line key new_value line >>= λ (line', old). ok (concat (before ++ line' ∷ after), old)

  abbrev pub edit_at : List Text → Text → Text → Option ℕ → Result PinError (Text × Text)
  edit_at lines key new_value none = err not_located
  edit_at lines key new_value (some i) = put_line key new_value (line_at i lines)

  -- The path is given as its segments before the last one, and the last one.
  unfoldable pub replace_nested_scalar :
      (Text → List Text) → Text → List Text → Text → Text → Result PinError (Text × Text)
  replace_nested_scalar splitlines text path key new_value =
      let lines = splitlines text in
      edit_at lines key new_value (locate path key 0 (length lines) 0 lines)
