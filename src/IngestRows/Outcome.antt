-- ===== src/IngestRows/Outcome.antt =====
-- What the row-by-row fallback does on a lawful unit of work.
use globant.Base.{
  ℕ, ◌+◌, ◌≡◌, refl, ◌⊎◌, inl, inr, true, false, Option, none, some, List, [], ◌∷◌, ◌++◌, Text,
  arith, Option-cases, append-nil, append_assoc,
}
use globant.Errors.{Uuid, Exc, Result, ok, err, is_operational}
use globant.Errors.Translator.{translate_db_error}
use globant.Action.{Action, pure, ◌>>◌}
use globant.Action.Rules.{bind_rule, try_rule}
use globant.Models.{Db}
use globant.UnitOfWork.{UnitOfWork, RowRepository}
use globant.UnitOfWork.Contract.{IsLawful, Stores, Writes, Nests, Restores}
use globant.UnitOfWork.Steps.{At}
use globant.IngestRows.{add_one, on_row_failure, insert_one, insert_each}
use globant.IngestRows.Greedy.{greedy_db, greedy_count, greedy_errors}

module _ (Outage : Exc → Type 0) where
  -- An exception that an outage explains.
  abbrev pub Broken : Exc → Type 0
  Broken e = (cause : Exc) × Outage cause × ((e ≡ cause) ⊎ (e ≡ translate_db_error cause))

module _ (Outage : Exc → Type 0) (outages : (e : Exc) → Outage e → is_operational e ≡ true)
    (U : UnitOfWork) (L : IsLawful Outage U) {R : Type 0} (rows : RowRepository U.State R)
    (label : R → Text) (ins : R → Uuid → Db → Option Db) (stores : Stores Outage L.view ins rows)
    (b : Uuid) (c : Db) where
  -- What the `try` of one turn has done.
  abbrev Tried : R → ℕ → List Text → Db → Result (ℕ × List Text) → U.State → Type 0
  Tried r n errors d (ok (n', errors')) s =
      ((L.view s).committed ≡ c)
      × ((L.view s).aborted ≡ false)
      × (ins r b d ≡ some (L.view s).current)
      × (n' ≡ n + 1)
      × (errors' ≡ errors)
  Tried r n errors d (err e) s =
      ((L.view s).committed ≡ c)
      × (Outage e ⊎ (((L.view s).saved ≡ some d) × (ins r b d ≡ none) × (is_operational e ≡ false)))

  add_one-Tried :
      (r : R) (n : ℕ) (errors : List Text) (d : Db) (s : U.State)
      → At c d (L.view s)
      → let (out, s') = add_one U rows label b r n errors s in Tried r n errors d out s'
  unfolding add_one
  add_one-Tried r n errors d s h =
      let counted : Action U.State (ℕ × List Text) = pure (n + 1, errors) in
      bind_rule U.begin_nested (λ _. rows.add r b >> counted) s
        (λ out s'. Nests Outage (L.view s) out (L.view s')) (Tried r n errors d)
        (L.begin_nested_lem s)
        (λ _ s1 h1.
          bind_rule (rows.add r b) (λ _. counted) s1
            (λ out s'. Writes Outage (ins r b) (L.view s1) out (L.view s')) (Tried r n errors d)
            (stores.add_lem r b s1) (λ _ s2 h2. ground arith) (λ e s2 h2. ground arith))
        (λ e s1 h1. ground arith)

  -- What the turns for a list of records have done.
  abbrev pub Counted : List R → ℕ → List Text → Db → Result (ℕ × List Text) → U.State → Type 0
  Counted rs n errors d (ok (n', errors')) s =
      At c (greedy_db (λ r. ins r b) label rs d) (L.view s)
      × (n' ≡ n + greedy_count (λ r. ins r b) label rs d)
      × (errors' ≡ errors ++ greedy_errors (λ r. ins r b) label rs d)
  Counted rs n errors d (err e) s = ((L.view s).committed ≡ c) × Broken Outage e

  -- After a violation the savepoint brings the transaction back, and the row is reported.
  insert_one_caught :
      (r : R) (n : ℕ) (errors : List Text) (d : Db) (e : Exc) (s : U.State)
      → Tried r n errors d (err e) s
      → let (out, s') = on_row_failure U rows label r n errors e s in
        Counted (r ∷ []) n errors d out s'
  unfolding on_row_failure
  insert_one_caught r n errors d e s (same, inl outage) =
      rw (outages e outage) (same, (e, outage, inr refl))
  insert_one_caught r n errors d e s (same, inr (saved, no_row, violation)) =
      let reported : Action U.State (ℕ × List Text) = pure (n, errors ++ label r ∷ []) in
      rw violation (
        bind_rule U.rollback_to_savepoint (λ _. reported) s
          (λ out s'. Restores Outage (L.view s) out (L.view s')) (Counted (r ∷ []) n errors d)
          (L.rollback_to_savepoint_lem s) (λ _ s' h. ground (arith, append-nil errors))
          (λ e' s' h. elim h.1 [
            | inl lost ↦ (ground arith, (e', lost, inl refl))
            | inr unsaved ↦ cc
          ]))

  insert_one-Counted :
      (r : R) (n : ℕ) (errors : List Text) (d : Db) (s : U.State)
      → At c d (L.view s)
      → let (out, s') = insert_one U rows label b r n errors s in Counted (r ∷ []) n errors d out s'
  unfolding insert_one
  insert_one-Counted r n errors d s h =
      try_rule (add_one U rows label b r n errors) _ s (Tried r n errors d)
        (Counted (r ∷ []) n errors d) (add_one-Tried r n errors d s h)
        (λ a s' h'. ground (arith, append-nil errors))
        (λ e s' h'. insert_one_caught r n errors d e s' h')

  -- One record and the rest make the whole list.
  Counted-cons :
      (r : R) (rs : List R) (n n' : ℕ) (errors failed : List Text) (d : Db) (s' s'' : U.State)
      (out : Result (ℕ × List Text))
      → Counted (r ∷ []) n errors d (ok (n', failed)) s'
      → Counted rs n' failed (greedy_db (λ r. ins r b) label (r ∷ []) d) out s''
      → Counted (r ∷ rs) n errors d out s''
  Counted-cons r rs n n' errors failed d s' s'' (ok (n2, failed2)) h h' =
      elim (Option-cases (ins r b d)) [
        | inl e ↦
            ground
              (arith, append_assoc errors (label r ∷ []) (greedy_errors (λ r. ins r b) label rs d))
        | inr (d', e) ↦ ground (arith, append-nil errors)
      ]
  Counted-cons r rs n n' errors failed d s' s'' (err e) h h' = h'

  -- The loop stores the records greedily.
  pub insert_each-Counted :
      (rs : List R) (n : ℕ) (errors : List Text) (d : Db) (s : U.State)
      → At c d (L.view s)
      → let (out, s') = insert_each U rows label b rs n errors s in Counted rs n errors d out s'
  unfolding insert_each
  insert_each-Counted [] n errors d s h = ground (arith, append-nil errors)
  insert_each-Counted (r ∷ rs) n errors d s h =
      bind_rule (insert_one U rows label b r n errors)
        (λ (n', failed). insert_each U rows label b rs n' failed) s (Counted (r ∷ []) n errors d)
        (Counted (r ∷ rs) n errors d) (insert_one-Counted r n errors d s h)
        (λ (n', failed) s' h'.
          Counted-cons r rs n n' errors failed d s' _ _ h'
            (insert_each-Counted rs n' failed (greedy_db (λ r. ins r b) label (r ∷ []) d) s' h'.0))
        (λ e s' h'. h')
