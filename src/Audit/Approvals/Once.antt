-- ===== src/Audit/Approvals/Once.antt =====
-- An approval is spent by the decision that uses it.
use prolewatch.Prelude.{
  ℕ, ◌+◌, ◌≡◌, ◌≤◌, ◌<◌, refl, ap, not, ◌||◌, ◌⊎◌, inl, inr, true, false, List, [], ◌∷◌, ◌++◌,
  if◌then◌else◌, Bytes, Option, none, some, bytes_eq_iff, arith, IsIn, here, there, Bool-cases,
}
use prolewatch.Audit.Types.{approval_schema_version}
use prolewatch.Audit.Approvals.{
  ApprovalToken, Entry, ApprovalStore, Wanted, Rename, moved, missing, failed, Files, token_matches,
  entry_matches, remove_entry, put_used, nothing, token, stamped, consume_entries, consume,
}

-- How many pending entries a decision could use.
abbrev pub count_matching : Wanted → List Entry → ℕ
count_matching w [] = 0
count_matching w (e ∷ es) = (if entry_matches w e then 1 else 0) + count_matching w es

-- The token is bound to what was asked for, in each of its fields, and carries the mark of its use.
pub record IsFor (w : Wanted) (t : ApprovalToken) : Type 0 where
  pub same_kind : t.kind ≡ w.kind
  pub same_package : t.package_base ≡ w.package_base
  pub same_phase : t.phase ≡ w.phase
  pub same_content : t.content_hash ≡ w.content_hash
  pub same_policy : t.policy_fingerprint ≡ w.policy_fingerprint
  pub current_schema : t.schema_version ≡ approval_schema_version
  pub is_consumed : t.consumed ≡ true

token_matches-IsFor :
    (w : Wanted) (t : ApprovalToken)
    → token_matches w t ≡ true
    → IsFor w (record t { consumed = true })
unfolding token_matches
token_matches-IsFor w t h = ground (
  arith,
  bytes_eq_iff t.kind w.kind,
  bytes_eq_iff t.package_base w.package_base,
  bytes_eq_iff t.phase w.phase,
  bytes_eq_iff t.content_hash w.content_hash,
  bytes_eq_iff t.policy_fingerprint w.policy_fingerprint,
)

entry_matches-token :
    (w : Wanted) (e : Entry) (t : ApprovalToken)
    → entry_matches w e ≡ true
    → e.document ≡ some t
    → IsFor w (record t { consumed = true })
unfolding entry_matches
entry_matches-token w e t h d = token_matches-IsFor w t (ground arith)

-- What the loop has done when it hands out `t`.
record Spent (w : Wanted) (files : Files) (es : List Entry) (t : ApprovalToken) : Type 0 where
  entry : Entry
  was_pending : IsIn entry es
  taken_is : (consume_entries w files es).1 ≡ stamped entry ∷ []
  document_is : (stamped entry).document ≡ some t
  bound : IsFor w t
  fewer : count_matching w (consume_entries w files es).0 + 1 ≤ count_matching w es

consume_entries-Spent :
    (w : Wanted) (files : Files) (es : List Entry) (t : ApprovalToken)
    → (consume_entries w files es).2 ≡ token t
    → Spent w files es t
unfolding consume_entries
consume_entries-Spent w files [] t h = absurd (cc)
consume_entries-Spent w files (e ∷ es) t h =
    by_match (λ g. consume_entries-Spent w files es t g) (Bool-cases (entry_matches w e))
      (files.rename e.name) refl e.document refl
  where
    bound_by :
        (u : ApprovalToken)
        → entry_matches w e ≡ true
        → e.document ≡ some u
        → t ≡ record u { consumed = true }
        → IsFor w t
    bound_by u hit ed same = rw same (entry_matches-token w e u hit ed)

    by_match :
        ((consume_entries w files es).2 ≡ token t → Spent w files es t)
        → (entry_matches w e ≡ true) ⊎ (entry_matches w e ≡ false)
        → (r : Rename) → files.rename e.name ≡ r
        → (d : Option ApprovalToken) → e.document ≡ d
        → Spent w files (e ∷ es) t
    by_match ih (inr skip) r er d ed =
        let later = ih (ground arith) in
        record {
          entry = later.entry;
          was_pending = there later.was_pending;
          taken_is = ground arith;
          document_is = later.document_is;
          bound = later.bound;
          fewer = ground arith;
        }
    by_match ih (inl hit) missing er d ed =
        let later = ih (ground arith) in
        record {
          entry = later.entry;
          was_pending = there later.was_pending;
          taken_is = ground arith;
          document_is = later.document_is;
          bound = later.bound;
          fewer = ground arith;
        }
    by_match ih (inl hit) failed er d ed = absurd (ground arith)
    by_match ih (inl hit) moved er none ed = absurd (ground arith)
    by_match ih (inl hit) moved er (some u) ed = record {
      entry = e;
      was_pending = here refl;
      taken_is = ground arith;
      document_is = ground arith;
      bound = bound_by u hit ed (ground arith);
      fewer = ground arith;
    }

-- What a decision has that was handed an approval.
pub record IsSpent (w : Wanted) (before after : ApprovalStore) (t : ApprovalToken) : Type 0 where
  pub bound : IsFor w t
  pub entry : Entry
  pub was_pending : IsIn entry before.pending
  pub document_is : (stamped entry).document ≡ some t
  pub now_used : after.used ≡ remove_entry entry.name before.used ++ stamped entry ∷ []
  pub fewer : count_matching w after.pending < count_matching w before.pending

-- An approval that Consume hands out is bound to the package, phase, content, policy and kind that
-- were asked for. It was pending, it is now recorded as consumed in `used`, and the store has fewer
-- entries left that the same question could use.
pub consume-IsSpent :
    (w : Wanted) (files : Files) (s : ApprovalStore) (t : ApprovalToken)
    → (consume w files s).1 ≡ token t
    → IsSpent w s (consume w files s).0 t
unfolding consume
consume-IsSpent w files s t h = elim (Bool-cases (not files.list_ok || not files.used_ok)) [
  | inl broken ↦ absurd (ground arith)
  | inr ready ↦
      let spent = consume_entries-Spent w files s.pending t (ground arith) in
      rw ready (record {
        bound = spent.bound;
        entry = spent.entry;
        was_pending = spent.was_pending;
        document_is = spent.document_is;
        now_used = ap (λ x. put_used x s.used) spent.taken_is;
        fewer = omega (arith, spent.fewer);
      })
]

consume_entries-nothing :
    (w : Wanted) (files : Files) (es : List Entry)
    → ((n : Bytes) → files.rename n ≡ moved)
    → (consume_entries w files es).2 ≡ nothing
    → count_matching w es ≡ 0
unfolding consume_entries
consume_entries-nothing w files [] free h = refl
consume_entries-nothing w files (e ∷ es) free h =
    ground (arith, free e.name, consume_entries-nothing w files es free)

-- Consume says that there is no approval only if no pending entry fits, as long as no other process
-- takes or blocks the files.
pub consume-nothing :
    (w : Wanted) (files : Files) (s : ApprovalStore)
    → ((n : Bytes) → files.rename n ≡ moved)
    → (consume w files s).1 ≡ nothing
    → count_matching w s.pending ≡ 0
unfolding consume
consume-nothing w files s free h = elim (Bool-cases (not files.list_ok || not files.used_ok)) [
  | inl broken ↦ absurd (ground arith)
  | inr ready ↦ consume_entries-nothing w files s.pending free (ground arith)
]
