-- ===== src/Egress/Allowance/Declared.antt =====
-- What a successful parse of the declared sources says of the text.
use prolewatch.Prelude.{
  true, false, ◌||◌, List, [], ◌∷◌, ◌++◌, Option, none, some, length, All, map, ◌≡◌, refl, sym, ap,
  ◌∙◌, ◌≤◌, ◌<◌, ◌⊎◌, inl, inr, ◌≢◌, arith, Option-cases, length-append, Bytes, bytes_eq,
  bytes_eq_iff, bytes_eq_refl, is_member, split_at,
}
use prolewatch.Egress.Allowance.{
  Url, DeclaredSource, Parsed, parsed, max_declared_sources, max_srcinfo_line_bytes, source_value,
  Next, skip, add, fail, next, classify_source, parse_lines, parse_srcinfo_sources,
}

abbrev pub raws : List DeclaredSource → List Bytes
raws = map (λ s. s.raw)

abbrev pub Distinct : List Bytes → Type 0
Distinct [] = Unit
Distinct (x ∷ xs) = (is_member x xs ≡ false) × Distinct xs

is_member-snoc :
    (v x : Bytes) (xs : List Bytes)
    → is_member v (xs ++ (x ∷ [])) ≡ (bytes_eq v x || is_member v xs)
is_member-snoc v x [] = ground arith
is_member-snoc v x (y ∷ ys) = ground (arith, is_member-snoc v x ys)

bytes_eq_sym : (a b : Bytes) → bytes_eq a b ≡ bytes_eq b a
bytes_eq_sym a b = ground (arith, bytes_eq_iff a b, bytes_eq_iff b a)

Distinct-snoc :
    (x : Bytes) (xs : List Bytes) → Distinct xs → is_member x xs ≡ false → Distinct (xs ++ (x ∷ []))
Distinct-snoc x [] d h = (refl, tt)
Distinct-snoc x (y ∷ ys) d h =
    let fresh : is_member y (ys ++ (x ∷ [])) ≡ false =
      ground (arith, is_member-snoc y x ys, bytes_eq_sym y x) in
    (fresh, Distinct-snoc x ys d.1 (ground arith))

raws-snoc :
    (xs : List DeclaredSource) (s : DeclaredSource)
    → raws (xs ++ (s ∷ [])) ≡ raws xs ++ (s.raw ∷ [])
raws-snoc [] s = refl
raws-snoc (x ∷ xs) s = ap (λ r. x.raw ∷ r) (raws-snoc xs s)

-- A line of a parsed text: it fits the buffer, and a value that it declares is among the sources.
abbrev pub IsAccounted : List DeclaredSource → Bytes → Type 0
IsAccounted sources line =
    (length line < max_srcinfo_line_bytes)
    × ((source_value line ≡ none)
        ⊎ ((v : Bytes) × (source_value line ≡ some v) × (is_member v (raws sources) ≡ true)))

module _ (parse_url : Bytes → Option Url) (url_string : Url → Bytes) where
  abbrev loop : List Bytes → List Bytes → List DeclaredSource → Parsed
  loop = parse_lines parse_url url_string

  classify_source-raw : (entry : Bytes) → (classify_source parse_url url_string entry).raw ≡ entry
  unfolding classify_source
  classify_source-raw entry = ground arith

  next-add :
      (line : Bytes) (seen : List Bytes) (sources : List DeclaredSource) (v : Bytes)
      → next line seen sources ≡ add v
      → (length line < max_srcinfo_line_bytes)
        × (source_value line ≡ some v)
        × (is_member v seen ≡ false)
        × (length sources < max_declared_sources)
  unfolding next
  next-add line seen sources v h = ground arith

  next-skip :
      (line : Bytes) (seen : List Bytes) (sources : List DeclaredSource)
      → next line seen sources ≡ skip
      → (length line < max_srcinfo_line_bytes)
        × ((source_value line ≡ none)
            ⊎ ((v : Bytes) × (source_value line ≡ some v) × (is_member v seen ≡ true)))
  unfolding next
  next-skip line seen sources h = elim (Option-cases (source_value line)) [
    | inl e ↦ (ground arith, inl e)
    | inr (v, e) ↦ (ground arith, inr (v, e, ground arith))
  ]

  next-cases :
      (n : Next) → (n ≡ skip) ⊎ (((v : Bytes) × (n ≡ add v)) ⊎ ((r : Parsed) × (n ≡ fail r)))
  next-cases skip = inl refl
  next-cases (add v) = inr (inl (v, refl))
  next-cases (fail r) = inr (inr (r, refl))

  next-fail :
      (line : Bytes) (seen : List Bytes) (sources out : List DeclaredSource)
      → next line seen sources ≢ fail (parsed out)
  unfolding next
  next-fail line seen sources out h = ground arith

  loop-skip :
      (line : Bytes) (lines seen : List Bytes) (sources : List DeclaredSource)
      → next line seen sources ≡ skip
      → loop (line ∷ lines) seen sources ≡ loop lines seen sources
  unfolding parse_lines
  loop-skip line lines seen sources h = rw (h, parse_lines) refl

  loop-add :
      (line : Bytes) (lines seen : List Bytes) (sources : List DeclaredSource) (v : Bytes)
      → next line seen sources ≡ add v
      → loop (line ∷ lines) seen sources
        ≡ loop lines (v ∷ seen) (sources ++ (classify_source parse_url url_string v ∷ []))
  unfolding parse_lines
  loop-add line lines seen sources v h = rw (h, parse_lines) refl

  loop-fail :
      (line : Bytes) (lines seen : List Bytes) (sources : List DeclaredSource) (r : Parsed)
      → next line seen sources ≡ fail r
      → loop (line ∷ lines) seen sources ≡ r
  unfolding parse_lines
  loop-fail line lines seen sources r h = rw (h, parse_lines) refl

  -- The sources so far: distinct, within the cap, and the texts that the map has seen.
  record IsSeen (seen : List Bytes) (sources : List DeclaredSource) : Type 0 where
    distinct : Distinct (raws sources)
    bounded : length sources ≤ max_declared_sources
    same : (v : Bytes) → is_member v seen ≡ is_member v (raws sources)

  raws-added :
      (sources : List DeclaredSource) (v : Bytes)
      → raws (sources ++ (classify_source parse_url url_string v ∷ [])) ≡ raws sources ++ (v ∷ [])
  raws-added sources v =
      raws-snoc sources (classify_source parse_url url_string v)
      ∙ ap (λ r. raws sources ++ (r ∷ [])) (classify_source-raw v)

  IsSeen-add :
      (seen : List Bytes) (sources : List DeclaredSource) (v : Bytes)
      → IsSeen seen sources
      → is_member v seen ≡ false
      → length sources < max_declared_sources
      → IsSeen (v ∷ seen) (sources ++ (classify_source parse_url url_string v ∷ []))
  IsSeen-add seen sources v i fresh room = record {
    distinct =
        rw (raws-added sources v)
          (Distinct-snoc v (raws sources) i.distinct (sym (i.same v) ∙ fresh));
    bounded = ground (arith, length-append sources (classify_source parse_url url_string v ∷ []));
    same = λ w.
        rw (raws-added sources v) (ground (arith, is_member-snoc w v (raws sources), i.same w));
  }

  -- What the loop keeps and what it has seen to.
  record IsDone (lines : List Bytes) (sources out : List DeclaredSource) : Type 0 where
    distinct : Distinct (raws out)
    bounded : length out ≤ max_declared_sources
    accounted : All (IsAccounted out) lines
    keeps : (v : Bytes) → is_member v (raws sources) ≡ true → is_member v (raws out) ≡ true

  parse_lines-IsDone :
      (lines seen : List Bytes) (sources out : List DeclaredSource)
      → IsSeen seen sources
      → loop lines seen sources ≡ parsed out
      → IsDone lines sources out
  parse_lines-IsDone [] seen sources out i h =
      let same : sources ≡ out = unfold parse_lines in ground arith in
      record {
        distinct = rw (sym same) i.distinct;
        bounded = rw (sym same) i.bounded;
        accounted = tt;
        keeps = λ v m. rw (sym same) m;
      }
  parse_lines-IsDone (line ∷ lines) seen sources out i h =
      elim (next-cases (next line seen sources)) [
        | inl e ↦
            let rest =
              parse_lines-IsDone lines seen sources out i
                (sym (loop-skip line lines seen sources e) ∙ h) in
            let (fits, why) = next-skip line seen sources e in
            record {
              distinct = rest.distinct;
              bounded = rest.bounded;
              accounted = ((fits, kept rest.keeps why), rest.accounted);
              keeps = rest.keeps;
            }
        | inr (inl (v, e)) ↦
            let (fits, value, fresh, room) = next-add line seen sources v e in
            let rest =
              parse_lines-IsDone lines (v ∷ seen)
                (sources ++ (classify_source parse_url url_string v ∷ [])) out
                (IsSeen-add seen sources v i fresh room)
                (sym (loop-add line lines seen sources v e) ∙ h) in
            let mine : is_member v (raws out) ≡ true = rest.keeps v (
              rw (raws-added sources v)
                (ground (arith, is_member-snoc v v (raws sources), bytes_eq_refl v))) in
            record {
              distinct = rest.distinct;
              bounded = rest.bounded;
              accounted = ((fits, inr (v, value, mine)), rest.accounted);
              keeps = λ w m.
                  rest.keeps w
                    (rw (raws-added sources v) (ground (arith, is_member-snoc w v (raws sources))));
            }
        | inr (inr (r, e)) ↦ absurd (
            next-fail line seen sources out
              (e ∙ ap fail (sym (loop-fail line lines seen sources r e) ∙ h)))
      ]
    where
      kept :
          ((v : Bytes) → is_member v (raws sources) ≡ true → is_member v (raws out) ≡ true)
          → (source_value line ≡ none)
            ⊎ ((v : Bytes) × (source_value line ≡ some v) × (is_member v seen ≡ true))
          → (source_value line ≡ none)
            ⊎ ((v : Bytes) × (source_value line ≡ some v) × (is_member v (raws out) ≡ true))
      kept keeps (inl n) = inl n
      kept keeps (inr (v, value, m)) = inr (v, value, keeps v (sym (i.same v) ∙ m))

  -- Where the declared sources parse, no line was cut short: every line fits the scanner's buffer and
  -- every value that a line declares is among the sources, of which there are at most 256, each once.
  pub parse_srcinfo_sources-All :
      (raw : Bytes) (out : List DeclaredSource)
      → parse_srcinfo_sources parse_url url_string raw ≡ parsed out
      → All (IsAccounted out) (split_at b'\n' raw)
        × Distinct (raws out)
        × (length out ≤ max_declared_sources)
  unfolding parse_srcinfo_sources
  parse_srcinfo_sources-All raw out h =
      let start : IsSeen [] [] = record {
        distinct = tt;
        bounded = omega arith;
        same = λ v. refl;
      } in
      let done = parse_lines-IsDone (split_at b'\n' raw) [] [] out start h in
      (done.accounted, done.distinct, done.bounded)
