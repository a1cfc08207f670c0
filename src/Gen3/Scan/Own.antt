-- ===== src/Gen3/Scan/Own.antt =====
-- What `scan_once` of src/dger/relay_v1.py does to one execution: nothing but its own package and its own
-- state file count.
use Prim.Native.Nat.{Ordering}
use Prim.Native.String.{compare}
use text.Mathlib.TextPositions.{compare_refl}
use text.Mathlib.TextEquality.{path_by_compare}
use dropbox_governed_executi.Prelude.{
  String, ◌≡◌, refl, sym, ap, ◌∙◌, subst, Bool, true, false, not, ◌&&◌, ◌||◌, List, [], ◌∷◌, ◌==◌,
  elem, any, no_repeats, eq_iff, arith, Bool-cases, inl, inr, if◌then◌else◌,
}
use dropbox_governed_executi.Platform.{Python}
use dropbox_governed_executi.Primitives.Patterns.{is_id}
use dropbox_governed_executi.Relay.Driver.{insert_name}
use dropbox_governed_executi.Gen3.Values.{StrictJson}
use dropbox_governed_executi.Gen3.Stage.{IngressPackage}
use dropbox_governed_executi.Gen3.Exec.{Events, RelayV1}
use dropbox_governed_executi.Gen3.Advance.{resume_execution}
use dropbox_governed_executi.Gen3.Accept.{process_package}
use dropbox_governed_executi.Gen3.Scan.{
  Executions, with_history, StateFile, unreadable, named, StateDirectory, no_executions, unsafe_dir,
  entries_of, insert_by_name, scanned_packages, state_ids, directory_ids, process_each, resume_each,
  scan_executions,
}

-- The state file of an execution: a plain file `<id>.json` whose name is an identifier.
abbrev pub is_state_of : String → StateFile → Bool
is_state_of j unreadable = false
is_state_of j (named stem suffix is_file) =
    (is_file && suffix == ".json" && is_id stem) && (j == stem)

abbrev pub state_files : StateDirectory → List StateFile
state_files (entries_of files) = files
state_files _ = []

-- No two files of a directory have the same name.
abbrev pub has_name : String → String → StateFile → Bool
has_name stem suffix unreadable = false
has_name stem suffix (named s t is_file) = stem == s && suffix == t

abbrev pub are_distinct : List StateFile → Bool
are_distinct [] = true
are_distinct (unreadable ∷ l) = are_distinct l
are_distinct (named stem suffix is_file ∷ l) = not (any (has_name stem suffix) l) && are_distinct l

-- The name `k` put before `i`, in its place, or further on in `rest`.
elem_placed :
    (j k i : String) (l rest : List String) (o : Ordering)
    → (o ≡ Ordering.eq → k ≡ i)
    → elem j rest ≡ (j == k || elem j l)
    → elem j (elim o [ Ordering.lt ↦ k ∷ i ∷ l | Ordering.eq ↦ i ∷ l | Ordering.gt ↦ i ∷ rest ])
      ≡ (j == k || (j == i || elem j l))
elem_placed j k i l rest Ordering.lt same found = refl
elem_placed j k i l rest Ordering.eq same found = rw (same refl) (ground arith)
elem_placed j k i l rest Ordering.gt same found = ground arith

elem-insert_name :
    (j k : String) (l : List String) → elem j (insert_name k l) ≡ (j == k || elem j l)
unfolding insert_name
elem-insert_name j k [] = refl
elem-insert_name j k (i ∷ l) =
    elem_placed j k i l (insert_name k l) (compare k i) (path_by_compare k i)
      (elem-insert_name j k l)

no_repeats_placed :
    (k i : String) (l rest : List String) (o : Ordering)
    → (k == i) ≡ false
    → elem k l ≡ false
    → elem i l ≡ false
    → no_repeats l ≡ true
    → elem i rest ≡ false
    → no_repeats rest ≡ true
    → no_repeats (elim o [ Ordering.lt ↦ k ∷ i ∷ l | Ordering.eq ↦ i ∷ l | Ordering.gt ↦ i ∷ rest ])
      ≡ true
no_repeats_placed k i l rest Ordering.lt a b c d e f = ground arith
no_repeats_placed k i l rest Ordering.eq a b c d e f = ground arith
no_repeats_placed k i l rest Ordering.gt a b c d e f = ground arith

eq_false_sym : (k i : String) → (k == i) ≡ false → (i == k) ≡ false
eq_false_sym k i h = ground (arith, eq_iff k i, eq_iff i k)

no_repeats-insert_name :
    (k : String) (l : List String)
    → elem k l ≡ false
    → no_repeats l ≡ true
    → no_repeats (insert_name k l) ≡ true
unfolding insert_name
no_repeats-insert_name k [] out n = refl
no_repeats-insert_name k (i ∷ l) out n =
    let other : (k == i) ≡ false = ground arith in
    let out_l : elem k l ≡ false = ground arith in
    let own : elem i l ≡ false = ground arith in
    let n_l : no_repeats l ≡ true = ground arith in
    let flipped : (i == k) ≡ false = eq_false_sym k i other in
    no_repeats_placed k i l (insert_name k l) (compare k i) other out_l own n_l
      (elem-insert_name i k l ∙ rw (flipped, own) refl) (no_repeats-insert_name k l out_l n_l)

middle_true : (a b c : Bool) → (a && b && c) ≡ true → b ≡ true
middle_true a b c h = ground arith

-- The identifiers that are found are those of the state files.
elem-state_ids :
    (j : String) (files : List StateFile) → elem j (state_ids files).0 ≡ any (is_state_of j) files
unfolding state_ids
elem-state_ids j [] = refl
elem-state_ids j (unreadable ∷ l) = elem-state_ids j l
elem-state_ids j (named stem suffix is_file ∷ l) =
    elim (Bool-cases (is_file && suffix == ".json" && is_id stem)) [
      | inl q ↦ rw q (elem-insert_name j stem (state_ids l).0 ∙ rw (elem-state_ids j l) refl)
      | inr q ↦ rw q (elem-state_ids j l)
    ]

-- Another state file has another name.
not_named :
    (stem : String) (files : List StateFile)
    → any (has_name stem ".json") files ≡ false
    → any (is_state_of stem) files ≡ false
not_named stem [] h = refl
not_named stem (unreadable ∷ l) h = not_named stem l h
not_named stem (named s suffix is_file ∷ l) h =
    ground (arith, eq_iff suffix ".json", eq_iff ".json" suffix, not_named stem l)

no_repeats-state_ids :
    (files : List StateFile) → are_distinct files ≡ true → no_repeats (state_ids files).0 ≡ true
unfolding state_ids
no_repeats-state_ids [] h = refl
no_repeats-state_ids (unreadable ∷ l) h = no_repeats-state_ids l h
no_repeats-state_ids (named stem suffix is_file ∷ l) h =
    let rest : are_distinct l ≡ true = ground arith in
    let alone : any (has_name stem suffix) l ≡ false = ground arith in
    elim (Bool-cases (is_file && suffix == ".json" && is_id stem)) [
      | inr q ↦ rw q (no_repeats-state_ids l rest)
      | inl q ↦
          let json =
            (eq_iff suffix ".json").0 (middle_true is_file (suffix == ".json") (is_id stem) q) in
          let out = subst (λ x. any (has_name stem x) l ≡ false) json alone in
          rw q (
            no_repeats-insert_name stem (state_ids l).0
              (elem-state_ids stem l ∙ not_named stem l out) (no_repeats-state_ids l rest))
    ]

module _ ⦃py : Python⦄ ⦃sj : StrictJson⦄ (relay : String → RelayV1) where
  -- What the packages of an execution do to it, one after the other.
  abbrev pub own_step : String → IngressPackage → Events → Events
  own_step j p h = if p.is_directory && j == p.name then (process_package (relay j) p h).1 else h

  abbrev pub own_packages : String → List IngressPackage → Events → Events
  own_packages j [] h = h
  own_packages j (p ∷ l) h = own_packages j l (own_step j p h)

  -- An execution with a state file is resumed once, one without is left alone.
  abbrev pub own_resumption : String → List StateFile → Events → Events
  own_resumption j files h =
      if any (is_state_of j) files then (resume_execution (relay j) j h).1 else h

  not_directory-same :
      (self : RelayV1) (p : IngressPackage) (h : Events)
      → p.is_directory ≡ false
      → (process_package self p h).1 ≡ h
  unfolding process_package
  not_directory-same self p h d =
      elim (Bool-cases (is_id p.name && p.is_directory && p.ready_exists)) [
        | inl q ↦ let f = middle_true (is_id p.name) p.is_directory p.ready_exists q in cc (f, d)
        | inr q ↦ rw q refl
      ]

  -- One package in the loop, seen from one execution.
  step-own :
      (j : String) (p : IngressPackage) (w : Executions)
      → with_history w p.name (process_package (relay p.name) p (w p.name)).1 j ≡ own_step j p (w j)
  unfolding with_history
  step-own j p w = elim (Bool-cases (j == p.name)) [
    | inr q ↦ elim (Bool-cases p.is_directory) [ inl d ↦ rw (q, d) refl | inr d ↦ rw (q, d) refl ]
    | inl q ↦
        let e = (eq_iff j p.name).0 q in
        elim (Bool-cases p.is_directory) [
          | inl d ↦ simp (q, d) (ap (λ k. (process_package (relay k) p (w k)).1) (sym e))
          | inr d ↦ simp (q, d) (not_directory-same (relay p.name) p (w p.name) d ∙ ap w (sym e))
        ]
  ]

  process_each-own :
      (j : String) (l : List IngressPackage) (degraded : Bool) (w : Executions)
      → (process_each relay l degraded w).1 j ≡ own_packages j l (w j)
  unfolding process_each
  process_each-own j [] degraded w = refl
  process_each-own j (p ∷ l) degraded w =
      process_each-own j l _ _ ∙ ap (own_packages j l) (step-own j p w)

  -- The steps of two packages with different names.
  own_step_comm :
      (j : String) (p q : IngressPackage) (h : Events)
      → compare q.name p.name ≡ Ordering.lt
      → own_step j p (own_step j q h) ≡ own_step j q (own_step j p h)
  own_step_comm j p q h less = elim (Bool-cases (j == p.name)) [
    | inr e ↦ elim (Bool-cases p.is_directory) [ inl d ↦ rw (e, d) refl | inr d ↦ rw (e, d) refl ]
    | inl e ↦ elim (Bool-cases (j == q.name)) [
      | inr f ↦ elim (Bool-cases q.is_directory) [ inl d ↦ rw (f, d) refl | inr d ↦ rw (f, d) refl ]
      | inl f ↦
          let same : q.name ≡ p.name = sym ((eq_iff j q.name).0 f) ∙ (eq_iff j p.name).0 e in
          let both : compare q.name p.name ≡ Ordering.eq = rw same (compare_refl p.name) in
          cc (less, both)
    ]
  ]

  own_placed :
      (j : String) (p q : IngressPackage) (l rest : List IngressPackage) (h : Events) (o : Ordering)
      → compare q.name p.name ≡ o
      → ((g : Events) → own_packages j rest g ≡ own_packages j (p ∷ l) g)
      → own_packages j (elim o [ Ordering.lt ↦ q ∷ rest | _ ↦ p ∷ q ∷ l ]) h
        ≡ own_packages j (p ∷ q ∷ l) h
  own_placed j p q l rest h Ordering.eq c same = refl
  own_placed j p q l rest h Ordering.gt c same = refl
  own_placed j p q l rest h Ordering.lt less same =
      same (own_step j q h) ∙ ap (own_packages j l) (own_step_comm j p q h less)

  own_packages-insert_by_name :
      (j : String) (p : IngressPackage) (l : List IngressPackage) (h : Events)
      → own_packages j (insert_by_name p l) h ≡ own_packages j (p ∷ l) h
  unfolding insert_by_name
  own_packages-insert_by_name j p [] h = refl
  own_packages-insert_by_name j p (q ∷ l) h =
      own_placed j p q l (insert_by_name p l) h (compare q.name p.name) refl
        (own_packages-insert_by_name j p l)

  -- The order of the names and the filter make no difference to one execution.
  own_packages-scanned_packages :
      (j : String) (l : List IngressPackage) (h : Events)
      → own_packages j (scanned_packages l) h ≡ own_packages j l h
  unfolding scanned_packages
  own_packages-scanned_packages j [] h = refl
  own_packages-scanned_packages j (p ∷ l) h = elim (Bool-cases p.is_directory) [
    | inl d ↦
        let kept : scanned_packages (p ∷ l) ≡ insert_by_name p (scanned_packages l) =
          simp (d) refl in
        ap (λ x. own_packages j x h) kept
        ∙ own_packages-insert_by_name j p (scanned_packages l) h
        ∙ own_packages-scanned_packages j l (own_step j p h)
    | inr d ↦ simp (d) (own_packages-scanned_packages j l h)
  ]

  resume_each-own :
      (j : String) (ids : List String) (degraded : Bool) (w : Executions)
      → no_repeats ids ≡ true
      → (resume_each relay ids degraded w).1 j
        ≡ (if elem j ids then (resume_execution (relay j) j (w j)).1 else w j)
  unfolding resume_each with_history
  resume_each-own j [] degraded w n = refl
  resume_each-own j (k ∷ ids) degraded w n =
      let out : elem k ids ≡ false = ground arith in
      let rest : no_repeats ids ≡ true = ground arith in
      resume_each-own j ids _ _ rest ∙ elim (Bool-cases (j == k)) [
        | inl q ↦
            let e = (eq_iff j k).0 q in
            let out_j = subst (λ x. elem x ids ≡ false) (sym e) out in
            simp (q, out_j) (ap (λ x. (resume_execution (relay x) x (w x)).1) (sym e))
        | inr q ↦ simp (q) refl
      ]

  directory_ids-state_files :
      (j : String) (d : StateDirectory)
      → are_distinct (state_files d) ≡ true
      → (elem j (directory_ids d).0 ≡ any (is_state_of j) (state_files d))
        × (no_repeats (directory_ids d).0 ≡ true)
  unfolding directory_ids
  directory_ids-state_files j no_executions h = (refl, refl)
  directory_ids-state_files j unsafe_dir h = (refl, refl)
  directory_ids-state_files j (entries_of files) h =
      (elem-state_ids j files, no_repeats-state_ids files h)

  process_each-own_packages :
      (packages : List IngressPackage) (w : Executions) (j : String)
      → (process_each relay (scanned_packages packages) false w).1 j ≡ own_packages j packages (w j)
  process_each-own_packages packages w j =
      process_each-own j (scanned_packages packages) false w
      ∙ own_packages-scanned_packages j packages (w j)

  -- If no two state files have the same name, a scan does to each execution what its own packages and its
  -- own state file call for, whatever the others are and do: its packages that are plain directories are
  -- processed in turn, and then it is resumed once if a plain file `<id>.json` is there at that time, and
  -- not at all if there is none.
  pub scan_executions-own :
      (packages : List IngressPackage) (directory : Executions → StateDirectory) (w : Executions)
      (j : String)
      → ((v : Executions) → are_distinct (state_files (directory v)) ≡ true)
      → let v = (process_each relay (scanned_packages packages) false w).1 in
        (scan_executions relay packages directory w).1 j
        ≡ own_resumption j (state_files (directory v)) (own_packages j packages (w j))
  unfolding scan_executions
  scan_executions-own packages directory w j distinct =
      let (degraded, v) = process_each relay (scanned_packages packages) false w in
      let (found, alone) = directory_ids-state_files j (directory v) (distinct v) in
      let (ids, unread) = directory_ids (directory v) in
      resume_each-own j ids (degraded || unread) v alone
      ∙ rw (found, process_each-own_packages packages w j) refl
