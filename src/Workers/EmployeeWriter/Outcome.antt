-- ===== src/Workers/EmployeeWriter/Outcome.antt =====
-- What the writer does on a lawful unit of work.
use globant.Base.{
  ◌≡◌, refl, ◌⊎◌, inl, inr, true, false, Option, none, some, List, [], ◌∷◌, ◌++◌, Text, arith,
  Option-cases, append-nil, append_assoc,
}
use globant.Errors.{Uuid, Exc, Result, ok, err, is_operational}
use globant.Errors.Translator.{translate_db_error}
use globant.Action.{Action, pure, raise, try_except, ◌>>◌}
use globant.Action.Rules.{bind_rule, try_rule}
use globant.Models.{Db, EmployeeRecord}
use globant.UnitOfWork.{UnitOfWork}
use globant.UnitOfWork.Contract.{
  IsLawful, Writes, Nests, Restores, RollsBack, insert_bulk, insert_employee_record,
}
use globant.UnitOfWork.Steps.{At, Committed, commit-Committed}
use globant.IngestRows.Greedy.{insert_bulk-greedy}
use globant.IngestRows.Outcome.{Broken}
use globant.Workers.EmployeeWriter.Employees.{
  employees_db, employees_errors, FirstPart, FirstPart-append, FirstPart-after,
}
use globant.Workers.EmployeeWriter.{
  employee_label, write_one, on_write_failure, write_each, write_in_bulk, on_bulk_write_failure,
  unless_written, write_employees,
}

module _ (Outage : Exc → Type 0) (outages : (e : Exc) → Outage e → is_operational e ≡ true)
    (U : UnitOfWork) (L : IsLawful Outage U) (b : Uuid) where
  -- What the `try` of one turn has done.
  abbrev Tried : EmployeeRecord → List Text → Db → Result (List Text) → U.State → Type 0
  Tried r errors d (ok errors') s =
      At (L.view s).current (L.view s).current (L.view s)
      × (insert_employee_record r b d ≡ some (L.view s).current)
      × (errors' ≡ errors)
  Tried r errors d (err e) s =
      ((L.view s).committed ≡ d)
      × (Outage e
          ⊎ (((L.view s).saved ≡ some d)
              × (insert_employee_record r b d ≡ none)
              × (is_operational e ≡ false)))

  write_one-Tried :
      (r : EmployeeRecord) (errors : List Text) (d : Db) (s : U.State)
      → At d d (L.view s)
      → let (out, s') = write_one U b r errors s in Tried r errors d out s'
  unfolding write_one
  write_one-Tried r errors d s h =
      let kept : Action U.State (List Text) = pure errors in
      bind_rule U.begin_nested (λ _. U.employees.add r b >> (U.commit >> kept)) s
        (λ out s'. Nests Outage (L.view s) out (L.view s')) (Tried r errors d)
        (L.begin_nested_lem s)
        (λ _ s1 h1.
          bind_rule (U.employees.add r b) (λ _. U.commit >> kept) s1
            (λ out s'. Writes Outage (insert_employee_record r b) (L.view s1) out (L.view s'))
            (Tried r errors d) (L.employees_lem.add_lem r b s1)
            (λ _ s2 h2.
              bind_rule U.commit (λ _. kept) s2 (Committed Outage U L d (L.view s2).current)
                (Tried r errors d)
                (commit-Committed Outage U L d (L.view s2).current s2 (ground arith))
                (λ _ s3 h3. ground arith) (λ e s3 h3. ground arith))
            (λ e s2 h2. ground arith))
        (λ e s1 h1. ground arith)

  -- What the turns for a list of records have done.
  abbrev pub Written : List EmployeeRecord → List Text → Db → Result (List Text) → U.State → Type 0
  Written rs errors d (ok errors') s =
      At (employees_db b rs d) (employees_db b rs d) (L.view s)
      × (errors' ≡ errors ++ employees_errors b rs d)
  Written rs errors d (err e) s = FirstPart b rs d (L.view s).committed × Broken Outage e

  on_write_failure-Written :
      (r : EmployeeRecord) (errors : List Text) (d : Db) (e : Exc) (s : U.State)
      → Tried r errors d (err e) s
      → let (out, s') = on_write_failure U r errors e s in Written (r ∷ []) errors d out s'
  unfolding on_write_failure
  on_write_failure-Written r errors d e s (same, inl outage) =
      let translated : Action U.State (List Text) = raise (translate_db_error e) in
      rw (outages e outage) (
        bind_rule U.rollback (λ _. translated) s
          (λ out s'. RollsBack Outage (L.view s) out (L.view s')) (Written (r ∷ []) errors d)
          (L.rollback_lem s) (λ _ s' h. (([], r ∷ [], refl, ground arith), (e, outage, inr refl)))
          (λ e' s' h. (([], r ∷ [], refl, ground arith), (e', h.1, inl refl))))
  on_write_failure-Written r errors d e s (same, inr (saved, no_row, violation)) =
      let reported : Action U.State (List Text) = pure (errors ++ employee_label r ∷ []) in
      rw violation (
        bind_rule U.rollback_to_savepoint (λ _. reported) s
          (λ out s'. Restores Outage (L.view s) out (L.view s')) (Written (r ∷ []) errors d)
          (L.rollback_to_savepoint_lem s) (λ _ s' h. ground arith)
          (λ e' s' h. elim h.1 [
            | inl lost ↦ (([], r ∷ [], refl, ground arith), (e', lost, inl refl))
            | inr unsaved ↦ cc
          ]))

  turn-Written :
      (r : EmployeeRecord) (errors : List Text) (d : Db) (s : U.State)
      → At d d (L.view s)
      → let (out, s') = try_except (write_one U b r errors) (on_write_failure U r errors) s in
        Written (r ∷ []) errors d out s'
  turn-Written r errors d s h =
      try_rule (write_one U b r errors) (on_write_failure U r errors) s (Tried r errors d)
        (Written (r ∷ []) errors d) (write_one-Tried r errors d s h)
        (λ errors' s' h'. ground (arith, append-nil errors))
        (λ e s' h'. on_write_failure-Written r errors d e s' h')

  -- One record and the rest make the whole list.
  Written-cons :
      (r : EmployeeRecord) (rs : List EmployeeRecord) (errors errors1 : List Text) (d : Db)
      (s1 s2 : U.State) (out : Result (List Text))
      → Written (r ∷ []) errors d (ok errors1) s1
      → Written rs errors1 (employees_db b (r ∷ []) d) out s2
      → Written (r ∷ rs) errors d out s2
  Written-cons r rs errors errors1 d s1 s2 (ok errors2) h h' =
      elim (Option-cases (insert_employee_record r b d)) [
        | inl e ↦
            ground (arith, append_assoc errors (employee_label r ∷ []) (employees_errors b rs d))
        | inr (d', e) ↦ ground (arith, append-nil errors)
      ]
  Written-cons r rs errors errors1 d s1 s2 (err e) h (part, broken) =
      (FirstPart-after b (r ∷ []) rs d (L.view s2).committed part, broken)

  write_each-Written :
      (rs : List EmployeeRecord) (errors : List Text) (d : Db) (s : U.State)
      → At d d (L.view s)
      → let (out, s') = write_each U b rs errors s in Written rs errors d out s'
  unfolding write_each
  write_each-Written [] errors d s h = ground (arith, append-nil errors)
  write_each-Written (r ∷ rs) errors d s h =
      bind_rule (try_except (write_one U b r errors) (on_write_failure U r errors))
        (write_each U b rs) s (Written (r ∷ []) errors d) (Written (r ∷ rs) errors d)
        (turn-Written r errors d s h)
        (λ errors1 s1 h1.
          let (out, s2) = write_each U b rs errors1 s1 in
          Written-cons r rs errors errors1 d s1 s2 out h1
            (write_each-Written rs errors1 (employees_db b (r ∷ []) d) s1 h1.0))
        (λ e s1 h1. (FirstPart-append b (r ∷ []) rs d (L.view s1).committed h1.0, h1.1))

  -- The bulk insert: everything is committed, or nothing.
  abbrev InBulk : List EmployeeRecord → Db → Result (Option (List Text)) → U.State → Type 0
  InBulk rs d (ok (some errors)) s = Written rs [] d (ok errors) s
  InBulk rs d (ok none) s = At d d (L.view s)
  InBulk rs d (err e) s = ((L.view s).committed ≡ d) × (Outage e ⊎ (is_operational e ≡ false))

  write_in_bulk-InBulk :
      (rs : List EmployeeRecord) (d : Db) (s : U.State)
      → At d d (L.view s)
      → let (out, s') = write_in_bulk U b rs s in InBulk rs d out s'
  unfolding write_in_bulk
  write_in_bulk-InBulk rs d s h =
      let returned : Action U.State (Option (List Text)) = pure (some []) in
      let ins = λ (r : EmployeeRecord). insert_employee_record r b in
      bind_rule (U.employees.bulk_insert rs b) (λ _. U.commit >> returned) s
        (λ out s'. Writes Outage (insert_bulk ins rs) (L.view s) out (L.view s')) (InBulk rs d)
        (L.employees_lem.bulk_insert_lem rs b s)
        (λ _ s1 h1.
          let went : insert_bulk ins rs d ≡ some (L.view s1).current = rw h.1 at h1.1 in
          let g = insert_bulk-greedy ins employee_label rs d went in
          bind_rule U.commit (λ _. returned) s1 (Committed Outage U L d (L.view s1).current)
            (InBulk rs d) (commit-Committed Outage U L d (L.view s1).current s1 (ground arith))
            (λ _ s2 h2. ground arith) (λ e s2 h2. ground arith))
        (λ e s1 h1. ground arith)

  -- The bulk insert with its handlers.
  abbrev Attempted : List EmployeeRecord → Db → Result (Option (List Text)) → U.State → Type 0
  Attempted rs d (ok (some errors)) s = Written rs [] d (ok errors) s
  Attempted rs d (ok none) s = At d d (L.view s)
  Attempted rs d (err e) s = Written rs [] d (err e) s

  on_bulk_write_failure-Attempted :
      (rs : List EmployeeRecord) (d : Db) (e : Exc) (s : U.State)
      → (L.view s).committed ≡ d
      → Outage e ⊎ (is_operational e ≡ false)
      → let (out, s') = on_bulk_write_failure U e s in Attempted rs d out s'
  unfolding on_bulk_write_failure
  on_bulk_write_failure-Attempted rs d e s same (inl outage) =
      let translated : Action U.State (Option (List Text)) = raise (translate_db_error e) in
      rw (outages e outage) (
        bind_rule U.rollback (λ _. translated) s
          (λ out s'. RollsBack Outage (L.view s) out (L.view s')) (Attempted rs d)
          (L.rollback_lem s) (λ _ s' h. (([], rs, refl, ground arith), (e, outage, inr refl)))
          (λ e' s' h. (([], rs, refl, ground arith), (e', h.1, inl refl))))
  on_bulk_write_failure-Attempted rs d e s same (inr violation) =
      let goes_on : Action U.State (Option (List Text)) = pure none in
      rw violation (
        bind_rule U.rollback (λ _. goes_on) s
          (λ out s'. RollsBack Outage (L.view s) out (L.view s')) (Attempted rs d)
          (L.rollback_lem s) (λ _ s' h. ground arith)
          (λ e' s' h. (([], rs, refl, ground arith), (e', h.1, inl refl))))

  InBulk-Attempted :
      (rs : List EmployeeRecord) (d : Db) (a : Option (List Text)) (s : U.State)
      → InBulk rs d (ok a) s
      → Attempted rs d (ok a) s
  InBulk-Attempted rs d (some errors) s h = h
  InBulk-Attempted rs d none s h = h

  unless_written-Written :
      (rs : List EmployeeRecord) (d : Db) (a : Option (List Text)) (s : U.State)
      → Attempted rs d (ok a) s
      → let (out, s') = unless_written U b rs a s in Written rs [] d out s'
  unfolding unless_written
  unless_written-Written rs d (some errors) s h = h
  unless_written-Written rs d none s h = write_each-Written rs [] d s h

  -- From a clean transaction `write_employees` commits the employees greedily and reports the
  -- others, or raises what an outage explains with a first part of them committed.
  pub write_employees-Written :
      (rs : List EmployeeRecord) (d : Db) (s : U.State)
      → At d d (L.view s)
      → let (out, s') = write_employees U b rs s in Written rs [] d out s'
  unfolding write_employees
  write_employees-Written rs d s h =
      bind_rule (try_except (write_in_bulk U b rs) (on_bulk_write_failure U))
        (unless_written U b rs) s (Attempted rs d) (Written rs [] d)
        (try_rule (write_in_bulk U b rs) (on_bulk_write_failure U) s (InBulk rs d) (Attempted rs d)
          (write_in_bulk-InBulk rs d s h) (InBulk-Attempted rs d)
          (λ e s' h'. on_bulk_write_failure-Attempted rs d e s' h'.0 h'.1))
        (unless_written-Written rs d) (λ e s' h'. h')
