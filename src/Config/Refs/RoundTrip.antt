-- ===== src/Config/Refs/RoundTrip.antt =====
-- References of src/foundry/config/refs.py are read back as they are written.
use agent_foundry.Prelude.{
  ℕ, ◌≡◌, ◌⊎◌, inl, inr, refl, sym, ap, subst, ◌∙◌, Bool, true, false, ◌&&◌, Option, none, some, [],
  ◌∷◌, ◌++◌, append_assoc, append-nil, ok, arith, Bool-cases, Option-cases, eq_nat, ◌==◌, length,
  Text, codes, eq_text, strip, strip-append, strip-eq_some, stops, split_while, split_while-append,
  split_while_lem,
}
use agent_foundry.Config.Refs.{
  RefScope, catalog, local, ArtifactKind, ArtifactRef, scope_text, name_start, name_char, at_end,
  unversioned, to_str, match_digits, match_version, match_name, match_ref, is_name, is_version,
  conflict, pinned, make, resolve_pin, parse,
}

module _ (is_digit : ℕ → Bool) where
  -- What the fields of a reference satisfy.
  abbrev pub IsRef : ArtifactRef → Type 0
  IsRef r = (is_name is_digit r.name ≡ true) × (is_version is_digit r.version ≡ true)

  match_version-at :
      (v : Text)
      → is_version is_digit v ≡ true
      → match_version is_digit (codes "@" ++ v) ≡ some (some v)
  unfolding match_version strip
  match_version-at [] h = absurd (ground (arith, h))
  match_version-at (c ∷ []) h = absurd (ground (arith, h))
  match_version-at (c ∷ d ∷ s) h = elim (Bool-cases (c == 118)) [
    | inr other ↦ absurd (ground (arith, h, other))
    | inl is_v ↦
        ground
          (arith, h, is_v, append-nil s, split_while-append is_digit (length (d ∷ s)) (d ∷ s) [])
  ]

  match_name-at :
      (scope : RefScope) (n t : Text) (version : Option Text)
      → is_name is_digit n ≡ true
      → stops name_char t ≡ true
      → match_version is_digit t ≡ some version
      → match_name is_digit scope (n ++ t) ≡ some (scope, (n, version))
  unfolding match_name
  match_name-at scope [] t version h e m = absurd cc
  match_name-at scope (c ∷ s) t version h e m =
      ground
        (arith, h, m, split_while-append name_char 63 s t (ground (arith, h)) (ground (arith, h)) e)

  match_ref-at :
      (scope : RefScope) (s : Text) (found : RefScope × (Text × Option Text))
      → match_name is_digit scope s ≡ some found
      → match_ref is_digit (scope_text scope ++ s) ≡ some found
  unfolding match_ref strip
  match_ref-at catalog s found h = ground (arith, h, strip-append (scope_text catalog) s)
  match_ref-at local s found h = h

  -- A reference whose fields fit their patterns is read back from the text it is written as, beside no
  -- pin of the binding or the same one.
  pub parse-to_str :
      (r : ArtifactRef) (version : Option Text)
      → IsRef r
      → conflict is_digit (some r.version) version ≡ false
      → parse is_digit (to_str r) r.kind version ≡ ok r
  unfolding parse
  parse-to_str r version (named, versioned) same =
      let shape = append_assoc (scope_text r.scope) r.name (codes "@" ++ r.version) in
      let found =
        match_name-at r.scope r.name (codes "@" ++ r.version) (some r.version) named refl
          (match_version-at r.version versioned) in
      let matched =
        match_ref-at r.scope (r.name ++ (codes "@" ++ r.version))
          (r.scope, (r.name, some r.version)) found in
      subst (λ s. resolve_pin is_digit r.kind version (match_ref is_digit s) ≡ ok r) (sym shape)
        (subst (λ m. resolve_pin is_digit r.kind version m ≡ ok r) (sym matched)
          (ground (arith, same, named, versioned)))

  -- What a version that is matched stands in: nothing, or the text behind the name.
  abbrev Tail : Text → Option Text → Type 0
  Tail t none = at_end t ≡ true
  Tail t (some v) = (e : Text) × ((t ≡ codes "@" ++ (v ++ e)) × (at_end e ≡ true))

  match_digits-Tail :
      (front rest : Text) (version : Option Text)
      → match_digits is_digit (front, rest) ≡ some version
      → Tail (codes "@v" ++ (front ++ rest)) version
  match_digits-Tail [] rest version h = absurd cc
  match_digits-Tail (c ∷ ds) rest version h = elim (Bool-cases (at_end rest)) [
    | inr more ↦ absurd (ground (arith, h, more))
    | inl over ↦
        let found : some (codes "v" ++ c ∷ ds) ≡ version = ground (arith, h, over) in
        subst (Tail (codes "@v" ++ (c ∷ ds ++ rest))) found (rest, (refl, over))
  ]

  match_version-Tail :
      (t : Text) (version : Option Text) → match_version is_digit t ≡ some version → Tail t version
  unfolding match_version
  match_version-Tail t version h = elim (Option-cases (strip (codes "@v") t)) [
    | inl other ↦ elim (Bool-cases (at_end t)) [
      | inr more ↦ absurd (ground (arith, h, other, more))
      | inl over ↦
          let found : none ≡ version = ground (arith, h, other, over) in subst (Tail t) found over
    ]
    | inr (ds, behind) ↦
        let (front, rest) = split_while is_digit (length ds) ds in
        let (same, _) = split_while_lem is_digit (length ds) ds in
        let is_text : codes "@v" ++ (front ++ rest) ≡ t =
          sym (strip-eq_some (codes "@v") t ds behind ∙ ap (λ s. codes "@v" ++ s) same) in
        subst (λ s. Tail s version) is_text
          (match_digits-Tail front rest version (ground (arith, h, behind)))
  ]

  match_name-append :
      (scope : RefScope) (s : Text) (found : RefScope × (Text × Option Text))
      → match_name is_digit scope s ≡ some found
      → (t : Text) × ((scope ≡ found.0)
          × ((s ≡ found.1.0 ++ t) × (match_version is_digit t ≡ some found.1.1)))
  unfolding match_name
  match_name-append scope [] found h = absurd cc
  match_name-append scope (c ∷ s) found h =
      let (front, rest) = split_while name_char 63 s in
      let (same, _) = split_while_lem name_char 63 s in
      elim (Bool-cases (name_start c)) [
        | inr other ↦ absurd (ground (arith, h, other))
        | inl start ↦ elim (Option-cases (match_version is_digit rest)) [
          | inl nothing ↦ absurd (ground (arith, h, start, nothing))
          | inr (version, matched) ↦
              let is_found : (scope, (c ∷ front, version)) ≡ found =
                ground (arith, h, start, matched) in
              subst
                (λ (x : RefScope × (Text × Option Text)).
                  (t : Text) × ((scope ≡ x.0)
                    × ((c ∷ s ≡ x.1.0 ++ t) × (match_version is_digit t ≡ some x.1.1))))
                is_found (rest, (refl, (ap (λ s'. c ∷ s') same, matched)))
        ]
      ]

  -- The name that is matched behind a scope, and what follows it.
  abbrev Matched : Text → RefScope × (Text × Option Text) → Type 0
  Matched s found = (t : Text) × ((s ≡ scope_text found.0 ++ (found.1.0 ++ t)) × Tail t found.1.1)

  match_name-Matched :
      (scope : RefScope) (s rest : Text) (found : RefScope × (Text × Option Text))
      → strip (scope_text scope) s ≡ some rest
      → match_name is_digit scope rest ≡ some found
      → Matched s found
  match_name-Matched scope s rest found behind h =
      let (t, (named, (same, matched))) = match_name-append scope rest found h in
      (
        t,
        (
          strip-eq_some (scope_text scope) s rest behind
              ∙ (ap (λ x. scope_text scope ++ x) same
                  ∙ ap (λ x. scope_text x ++ (found.1.0 ++ t)) named),
          match_version-Tail t found.1.1 matched,
        ),
      )

  match_ref-Matched :
      (s : Text) (found : RefScope × (Text × Option Text))
      → match_ref is_digit s ≡ some found
      → Matched s found
  unfolding match_ref
  match_ref-Matched s found h = elim (Option-cases (strip (scope_text catalog) s)) [
    | inr (rest, behind) ↦
        match_name-Matched catalog s rest found behind (ground (arith, h, behind))
    | inl other ↦ elim (Option-cases (strip (scope_text local) s)) [
      | inl neither ↦ absurd (ground (arith, h, other, neither))
      | inr (rest, behind) ↦
          match_name-Matched local s rest found behind (ground (arith, h, other, behind))
    ]
  ]

  -- The ways in which a text and the binding's pin name a reference.
  abbrev pub Names : Text → Option Text → ArtifactRef → Type 0
  Names s version r =
      (e : Text) × ((at_end e ≡ true)
        × (((s ≡ to_str r ++ e) × (conflict is_digit (some r.version) version ≡ false))
            ⊎ ((s ≡ unversioned r ++ e) × (version ≡ some r.version))))

  -- What `make` returns has its arguments as fields.
  make-eq_ok :
      (scope : RefScope) (kind : ArtifactKind) (n : Text) (v : Option Text) (r : ArtifactRef)
      → make is_digit scope kind n v ≡ ok r
      → IsRef r × ((r.kind ≡ kind) × ((r.scope ≡ scope) × ((r.name ≡ n) × (v ≡ some r.version))))
  make-eq_ok scope kind n none r h = absurd cc
  make-eq_ok scope kind n (some v) r h =
      elim (Bool-cases (is_name is_digit n && is_version is_digit v)) [
        | inr bad ↦ absurd (ground (arith, h, bad))
        | inl good ↦ ground (arith, h, good)
      ]

  resolve_pin-Names :
      (s t : Text) (kind : ArtifactKind) (version inline_version : Option Text) (scope : RefScope)
      (n : Text) (r : ArtifactRef)
      → s ≡ scope_text scope ++ (n ++ t)
      → Tail t inline_version
      → conflict is_digit inline_version version ≡ false
      → make is_digit scope kind n (pinned is_digit inline_version version) ≡ ok r
      → IsRef r × ((r.kind ≡ kind) × Names s version r)
  resolve_pin-Names s t kind version none scope n r same tail c h =
      let (is_ref, (same_kind, (same_scope, (same_name, v)))) =
        make-eq_ok scope kind n version r h in
      let without : s ≡ unversioned r ++ t =
        cc (same, same_scope, same_name, append_assoc (scope_text scope) n t) in
      (is_ref, (same_kind, (t, (tail, inr (without, v)))))
  resolve_pin-Names s t kind version (some v) scope n r same (e, (is_tail, over)) c h =
      let (is_ref, (same_kind, (same_scope, (same_name, is_v)))) =
        make-eq_ok scope kind n (some v) r h in
      let same_version : v ≡ r.version = ground (arith, is_v) in
      let written : s ≡ to_str r ++ e = cc (
        same,
        is_tail,
        same_scope,
        same_name,
        same_version,
        append_assoc (scope_text scope) n (codes "@" ++ (v ++ e)),
        append_assoc (unversioned r) (codes "@" ++ r.version) e,
      ) in
      let agree : conflict is_digit (some r.version) version ≡ false =
        subst (λ x. conflict is_digit (some x) version ≡ false) same_version c in
      (is_ref, (same_kind, (e, (over, inl (written, agree)))))

  -- Whatever is parsed to a reference has fields that fit their patterns, is of the kind that is asked
  -- for, and is the reference as it is written beside no pin of the binding or the same one, or without
  -- its version beside the binding's pin; a newline at the end is passed over.
  pub parse-Names :
      (s : Text) (kind : ArtifactKind) (version : Option Text) (r : ArtifactRef)
      → parse is_digit s kind version ≡ ok r
      → IsRef r × ((r.kind ≡ kind) × Names s version r)
  unfolding parse
  parse-Names s kind version r h = elim (Option-cases (match_ref is_digit s)) [
    | inl nothing ↦ absurd (ground (arith, h, nothing))
    | inr ((scope, (n, inline_version)), found) ↦
        let (t, (same, tail)) = match_ref-Matched s (scope, (n, inline_version)) found in
        elim (Bool-cases (conflict is_digit inline_version version)) [
          | inl two_pins ↦ absurd (ground (arith, h, found, two_pins))
          | inr one_pin ↦
              resolve_pin-Names s t kind version inline_version scope n r same tail one_pin
                (ground (arith, h, found, one_pin))
        ]
  ]
