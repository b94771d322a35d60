-- ===== src/Safe/Content/Chunks.antt =====
-- The verdict on a stream does not depend on how it is cut into writes.
use prolewatch.Prelude.{
  concat, ℕ, suc, ◌≤◌, ◌≡◌, refl, sym, ap, ◌∙◌, Bool, false, ◌||◌, List, [], ◌∷◌, ◌++◌, ◌==◌,
  length, any, Bytes, arith, append_assoc, length-append, append-nil,
}
use prolewatch.Safe.Content.{
  ContentValidator, Rune, partial, rune, read_rune, mark, scan_rune, scan, write, write_all, finish,
  fresh,
}
use prolewatch.Safe.Content.Stable.{IsStable, read_rune-IsStable}

-- Enough fuel.
scan-fuel : (m n : ℕ) (s : Bytes) → length s ≤ m → length s ≤ n → scan m s ≡ scan n s
unfolding scan read_rune
scan-fuel ℕ.zero ℕ.zero s h g = refl
scan-fuel ℕ.zero (suc n) [] h g = refl
scan-fuel ℕ.zero (suc n) (c ∷ s) h g = absurd (omega arith)
scan-fuel (suc m) ℕ.zero [] h g = refl
scan-fuel (suc m) ℕ.zero (c ∷ s) h g = absurd (omega arith)
scan-fuel (suc m) (suc n) [] h g = refl
scan-fuel (suc m) (suc n) (c ∷ s) h g =
    step (read_rune (c ∷ s)) (read_rune-IsStable c s [])
      (λ rest k. scan-fuel m n rest (omega arith) (omega arith))
  where
    step :
        (r : Rune)
        → IsStable (length s) r [] (read_rune ((c ∷ s) ++ []))
        → ((rest : Bytes) → length rest ≤ length s → scan m rest ≡ scan n rest)
        → scan_rune (λ rest. scan m rest) (c ∷ s) r ≡ scan_rune (λ rest. scan n rest) (c ∷ s) r
    step partial i f = refl
    step (rune ok rest) (e, shorter) f = ap (mark ok) (f rest shorter)

-- What is left over is no longer than what was read.
scan-length : (n : ℕ) (s : Bytes) → length (scan n s).0 ≤ length s
unfolding scan read_rune
scan-length ℕ.zero s = omega arith
scan-length (suc n) [] = omega arith
scan-length (suc n) (c ∷ s) =
    step (read_rune (c ∷ s)) (read_rune-IsStable c s []) (λ rest. scan-length n rest)
  where
    step :
        (r : Rune)
        → IsStable (length s) r [] (read_rune ((c ∷ s) ++ []))
        → ((rest : Bytes) → length (scan n rest).0 ≤ length rest)
        → length (scan_rune (λ rest. scan n rest) (c ∷ s) r).0 ≤ suc (length s)
    step partial i f = omega arith
    step (rune ok rest) (e, shorter) f = omega (arith, f rest)

abbrev joined : Bytes × Bool → Bytes × Bool → Bytes × Bool
joined (c, i) (d, j) = (d, i || j)

mark-joined : (ok : Bool) (a b : Bytes × Bool) → mark ok (joined a b) ≡ joined (mark ok a) b
mark-joined ok (c, i) (d, j) = ground arith

joined-fresh : (s : Bytes) (b : Bytes × Bool) → b ≡ joined (s, false) b
joined-fresh s (d, j) = refl

-- Scanning on from what is left over gives what scanning all of it gives.
scan-append :
    (m n : ℕ) (s t : Bytes)
    → length s ≤ m
    → length (s ++ t) ≤ n
    → scan n (s ++ t) ≡ joined (scan m s) (scan n ((scan m s).0 ++ t))
unfolding scan read_rune
scan-append ℕ.zero n [] t h g = joined-fresh [] (scan n t)
scan-append ℕ.zero n (c ∷ s) t h g = absurd (omega arith)
scan-append (suc m) n [] t h g = joined-fresh [] (scan n t)
scan-append (suc m) ℕ.zero (c ∷ s) t h g = absurd (omega arith)
scan-append (suc m) (suc n) (c ∷ s) t h g =
    step (read_rune (c ∷ s)) (read_rune-IsStable c s t) (λ rest k.
      scan-append m n rest t (omega arith) (omega (arith, length-append s t, length-append rest t)))
  where
    step :
        (r : Rune)
        → IsStable (length s) r t (read_rune ((c ∷ s) ++ t))
        → ((rest : Bytes)
            → length rest ≤ length s
            → scan n (rest ++ t) ≡ joined (scan m rest) (scan n ((scan m rest).0 ++ t)))
        → scan_rune (λ rest. scan n rest) ((c ∷ s) ++ t) (read_rune ((c ∷ s) ++ t))
          ≡ joined
              (scan_rune (λ rest. scan m rest) (c ∷ s) r)
              (scan (suc n) ((scan_rune (λ rest. scan m rest) (c ∷ s) r).0 ++ t))
    step partial i f = joined-fresh (c ∷ s) (scan (suc n) ((c ∷ s) ++ t))
    step (rune ok rest) (e, shorter) f =
        let left = (scan m rest).0 in
        let fits : length (left ++ t) ≤ n =
          omega (arith, length-append left t, length-append s t, scan-length m rest) in
        ap (scan_rune (λ x. scan n x) ((c ∷ s) ++ t)) e
        ∙ ap (mark ok) (f rest shorter)
        ∙ mark-joined ok (scan m rest) (scan n (left ++ t))
        ∙ ap (joined (mark ok (scan m rest))) (scan-fuel n (suc n) (left ++ t) fits (omega arith))

any-append : (p : ℕ → Bool) (a b : Bytes) → any p (a ++ b) ≡ (any p a || any p b)
any-append p [] b = refl
any-append p (x ∷ a) b = ground (arith, any-append p a b)

-- The state after a write whose scan gave this.
abbrev after : Bytes × Bool → Bool → Bool → ContentValidator
after (c, i) nul invalid = record { carry = c; nul = nul; invalid = invalid || i }

after-joined :
    (p q : Bytes × Bool) (nul next invalid : Bool)
    → nul ≡ next
    → after (joined p q) nul invalid ≡ after q next (invalid || p.1)
after-joined (c, i) (d, j) nul next invalid e =
    let flags : (invalid || (i || j)) ≡ ((invalid || i) || j) = ground arith in rw (e, flags) refl

write-append : (v : ContentValidator) (a b : Bytes) → write v (a ++ b) ≡ write (write v a) b
unfolding write
write-append v a b =
    let s = v.carry ++ a in
    let left = (scan (length s) s).0 in
    let whole = scan-append (length s) (length (s ++ b)) s b (omega arith) (omega arith) in
    let shorter = scan-length (length s) s in
    let again : scan (length (s ++ b)) (left ++ b) ≡ scan (length (left ++ b)) (left ++ b) =
      scan-fuel (length (s ++ b)) (length (left ++ b)) (left ++ b)
        (omega (arith, length-append s b, length-append left b)) (omega arith) in
    let nul : (any (λ c. c == 0) (a ++ b) || v.nul)
        ≡ (any (λ c. c == 0) b || (any (λ c. c == 0) a || v.nul)) =
      ground (arith, any-append (λ c. c == 0) a b) in
    ap (λ x. after (scan (length x) x) (any (λ c. c == 0) (a ++ b) || v.nul) v.invalid)
      (sym (append_assoc v.carry a b))
    ∙ ap (λ x. after x (any (λ c. c == 0) (a ++ b) || v.nul) v.invalid)
        (whole ∙ ap (joined (scan (length s) s)) again)
    ∙ after-joined (scan (length s) s) (scan (length (left ++ b)) (left ++ b)) _ _ v.invalid nul

write_all-write :
    (v : ContentValidator) (a : Bytes) (cs : List Bytes)
    → write_all (write v a) cs ≡ write v (a ++ concat cs)
unfolding write_all
write_all-write v a [] = ap (write v) (sym (append-nil a))
write_all-write v a (c ∷ cs) =
    ap (λ x. write_all x cs) (sym (write-append v a c))
    ∙ write_all-write v (a ++ c) cs
    ∙ ap (write v) (append_assoc a c (concat cs))

write-nothing : write fresh [] ≡ fresh
unfolding write scan
write-nothing = refl

-- A validator that starts fresh comes to the same state, so that Finish gives the same verdict,
-- however a stream is cut into writes.
pub write_all-cut :
    (cs ds : List Bytes)
    → concat cs ≡ concat ds
    → finish (write_all fresh cs) ≡ finish (write_all fresh ds)
write_all-cut cs ds e = ap finish (one_write cs ∙ ap (write fresh) e ∙ sym (one_write ds))
  where
    one_write : (xs : List Bytes) → write_all fresh xs ≡ write fresh (concat xs)
    one_write xs = ap (λ x. write_all x xs) (sym write-nothing) ∙ write_all-write fresh [] xs
