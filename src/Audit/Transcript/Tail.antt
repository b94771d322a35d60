-- ===== src/Audit/Transcript/Tail.antt =====
-- The transcript is the tail of the output, however the output is cut into writes.
use prolewatch.Prelude.{
  ℕ, zero, suc, ◌+◌, ◌-◌, ◌*◌, ◌≡◌, ◌≤◌, ◌<◌, refl, sym, ap, ◌∙◌, ◌⊎◌, inl, inr, Bool, true, false,
  List, [], ◌∷◌, ◌++◌, ltb, leb, ◌==◌, ◌&&◌, if◌then◌else◌, length, drop, Bytes, arith,
  length-append, length-drop, Bool-cases, append_assoc, append-nil,
}
use prolewatch.Audit.Transcript.{
  Transcript, new_output_transcript, last_bytes, observe, transcript_bytes, observe_all,
}

drop-append : (n : ℕ) (a b : Bytes) → n ≤ length a → drop n (a ++ b) ≡ drop n a ++ b
drop-append zero a b h = refl
drop-append (suc n) [] b h = absurd (omega arith)
drop-append (suc n) (x ∷ a) b h = drop-append n a b (omega arith)

drop-nil : (n : ℕ) → drop {A = ℕ} n [] ≡ []
drop-nil zero = refl
drop-nil (suc n) = refl

drop-drop : (m n k : ℕ) (s : Bytes) → k ≡ n + m → drop m (drop n s) ≡ drop k s
drop-drop m zero k s e = let same : m ≡ k = omega arith in ap (λ i. drop i s) same
drop-drop m (suc n) k [] e = drop-nil m ∙ sym (drop-nil k)
drop-drop m (suc n) zero (x ∷ s) e = absurd (omega arith)
drop-drop m (suc n) (suc k) (x ∷ s) e = drop-drop m n k s (omega arith)

drop-past : (a b : Bytes) (n k : ℕ) → k ≡ length a + n → drop k (a ++ b) ≡ drop n b
drop-past [] b n k e = let same : k ≡ n = omega arith in ap (λ i. drop i b) same
drop-past (x ∷ a) b n zero e = absurd (omega arith)
drop-past (x ∷ a) b n (suc k) e = drop-past a b n k (omega arith)

-- A long write hides what came before it.
last_bytes-long : (n : ℕ) (a b : Bytes) → n ≤ length b → last_bytes n (a ++ b) ≡ last_bytes n b
last_bytes-long n a b h =
    drop-past a b (length b - n) (length (a ++ b) - n) (omega (arith, length-append a b))

last_bytes-short : (n : ℕ) (s : Bytes) → length s ≤ n → last_bytes n s ≡ s
last_bytes-short n s h = let none_off : length s - n ≡ 0 = omega arith in rw none_off refl

-- Only the tail of what came before matters.
last_bytes-append :
    (n : ℕ) (a b : Bytes) → last_bytes n (last_bytes n a ++ b) ≡ last_bytes n (a ++ b)
last_bytes-append n a b = elim (Bool-cases (leb (length a) n)) [
  | inl small ↦ ap (λ s. last_bytes n (s ++ b)) (last_bytes-short n a (ground arith))
  | inr large ↦
      let k = length a - n in
      let whole : drop k (a ++ b) ≡ drop k a ++ b = drop-append k a b (omega arith) in
      let size : length (drop k a ++ b) - n ≡ length b =
        ground (arith, length-append (drop k a) b, length-drop k a) in
      let total : length (a ++ b) - n ≡ k + length b = ground (arith, length-append a b) in
      ap (λ i. drop i (drop k a ++ b)) size
      ∙ ap (drop (length b)) (sym whole)
      ∙ drop-drop (length b) k (length (a ++ b) - n) (a ++ b) total
]

last_bytes_idem : (n : ℕ) (a : Bytes) → last_bytes n (last_bytes n a) ≡ last_bytes n a
last_bytes_idem n a =
    last_bytes-short n (last_bytes n a) (ground (arith, length-drop (length a - n) a))

-- What holds of the transcript of an output `s`.
pub record IsTail (n : ℕ) (t : Transcript) (s : Bytes) : Type 0 where
  pub same_limit : t.limit ≡ n
  pub window : last_bytes n t.buffer ≡ last_bytes n s
  pub bounded : length t.buffer < 2 * n
  pub kept : (t.dropped ≡ true) ⊎ ((t.buffer ≡ s) × (length s ≤ n))

append-empty : (s value : Bytes) → length value ≡ 0 → s ++ value ≡ s
append-empty s [] e = append-nil s
append-empty s (x ∷ value) e = absurd (omega arith)

length-last_bytes : (n : ℕ) (s : Bytes) → length (last_bytes n s) ≤ n
length-last_bytes n s = omega (arith, length-drop (length s - n) s)

module _ (n : ℕ) (positive : 0 < n) where
  IsTail-if :
      (s : Bytes) (c : Bool) (t u : Transcript)
      → (c ≡ true → IsTail n t s)
      → (c ≡ false → IsTail n u s)
      → IsTail n (if c then t else u) s
  IsTail-if s true t u x y = x refl
  IsTail-if s false t u x y = y refl

  window-append :
      (a s value : Bytes)
      → last_bytes n a ≡ last_bytes n s
      → last_bytes n (a ++ value) ≡ last_bytes n (s ++ value)
  window-append a s value h =
      sym (last_bytes-append n a value)
      ∙ ap (λ w. last_bytes n (w ++ value)) h
      ∙ last_bytes-append n s value

  window-limit :
      (limit : ℕ) (s : Bytes) → limit ≡ n → last_bytes n (last_bytes limit s) ≡ last_bytes n s
  window-limit limit s e = ap (λ l. last_bytes n (last_bytes l s)) e ∙ last_bytes_idem n s

  kept-append :
      (t : Transcript) (s value : Bytes)
      → (t.dropped ≡ true) ⊎ ((t.buffer ≡ s) × (length s ≤ n))
      → length (t.buffer ++ value) ≤ n
      → (t.dropped ≡ true) ⊎ ((t.buffer ++ value ≡ s ++ value) × (length (s ++ value) ≤ n))
  kept-append t s value (inl d) h = inl d
  kept-append t s value (inr (same, _)) h =
      let both : t.buffer ++ value ≡ s ++ value = ap (λ b. b ++ value) same in
      inr (both, rw⁻¹ both h)

  observe-IsTail :
      (t : Transcript) (s value : Bytes) → IsTail n t s → IsTail n (observe t value) (s ++ value)
  unfolding observe
  observe-IsTail t s value i =
      let limit_is = i.same_limit in
      let window = window-append t.buffer s value i.window in
      IsTail-if (s ++ value) (length value == 0) _ _
        (λ e. let none_new = append-empty s value (ground arith) in rw none_new i)
        (λ _.
          IsTail-if (s ++ value) (t.limit == 0) _ _ (λ e. absurd (ground arith))
            (λ _.
              IsTail-if (s ++ value) (leb t.limit (length value)) _ _
                (λ e. record {
                  same_limit = limit_is;
                  window =
                      window-limit t.limit value limit_is
                      ∙ sym (last_bytes-long n s value (ground arith));
                  bounded = ground (arith, length-last_bytes t.limit value);
                  kept = inl refl;
                })
                (λ _.
                  IsTail-if (s ++ value) (leb (length (t.buffer ++ value)) t.limit) _ _
                    (λ e. record {
                      same_limit = limit_is;
                      window = window;
                      bounded = ground arith;
                      kept = kept-append t s value i.kept (ground arith);
                    })
                    (λ _.
                      IsTail-if (s ++ value) (leb (2 * t.limit) (length (t.buffer ++ value))) _ _
                        (λ e. record {
                          same_limit = limit_is;
                          window = window-limit t.limit (t.buffer ++ value) limit_is ∙ window;
                          bounded = ground (arith, length-last_bytes t.limit (t.buffer ++ value));
                          kept = inl refl;
                        })
                        (λ e. record {
                          same_limit = limit_is;
                          window = window;
                          bounded = ground arith;
                          kept = inl refl;
                        })))))

  abbrev pub joined : List Bytes → Bytes
  joined [] = []
  joined (value ∷ values) = value ++ joined values

  observe_all-IsTail :
      (values : List Bytes) (t : Transcript) (s : Bytes)
      → IsTail n t s
      → IsTail n (observe_all t values) (s ++ joined values)
  unfolding observe_all
  observe_all-IsTail [] t s i = rw (append-nil s) i
  observe_all-IsTail (value ∷ values) t s i =
      let more =
        observe_all-IsTail values (observe t value) (s ++ value) (observe-IsTail t s value i) in
      rw⁻¹ (append_assoc s value (joined values)) more

  abbrev Read : Bytes → Bytes × Bool → Type 0
  Read s r = (r.0 ≡ last_bytes n s) × ((r.1 ≡ true) ⊎ (r.0 ≡ s))

  kept-read : {P Q R : Type 0} → P ⊎ (Q × R) → P ⊎ Q
  kept-read (inl p) = inl p
  kept-read (inr (q, _)) = inr q

  transcript_bytes-Read : (t : Transcript) (s : Bytes) → IsTail n t s → Read s (transcript_bytes t)
  unfolding transcript_bytes
  transcript_bytes-Read t s i = by_size (ltb 0 t.limit && ltb t.limit (length t.buffer)) refl
    where
      by_size :
          (c : Bool)
          → (ltb 0 t.limit && ltb t.limit (length t.buffer)) ≡ c
          → Read s (if c then (last_bytes t.limit t.buffer, t.dropped) else (t.buffer, t.dropped))
      by_size true e =
          let limit_is = i.same_limit in
          let lost : t.dropped ≡ true = ground (arith, i.kept) in
          (ap (λ l. last_bytes l t.buffer) limit_is ∙ i.window, inl lost)
      by_size false e =
          let limit_is = i.same_limit in
          (sym (last_bytes-short n t.buffer (ground arith)) ∙ i.window, kept-read i.kept)

  -- However the output of a command is cut into writes, the transcript gives exactly its last `limit`
  -- bytes, holds fewer than twice as many at any time, and where it does not say that something was
  -- dropped gives the output whole.
  pub observe_all-new_output_transcript :
      (values : List Bytes)
      → ((transcript_bytes (observe_all (new_output_transcript n) values)).0
          ≡ last_bytes n (joined values))
        × (length (observe_all (new_output_transcript n) values).buffer < 2 * n)
        × (((transcript_bytes (observe_all (new_output_transcript n) values)).1 ≡ true)
            ⊎ ((transcript_bytes (observe_all (new_output_transcript n) values)).0 ≡ joined values))
  observe_all-new_output_transcript values =
      let start : IsTail n (new_output_transcript n) [] = record {
        same_limit = refl;
        window = refl;
        bounded = omega arith;
        kept = inr (refl, omega arith);
      } in
      let done = observe_all-IsTail values (new_output_transcript n) [] start in
      let (tail, whole) = transcript_bytes-Read _ _ done in (tail, done.bounded, whole)
