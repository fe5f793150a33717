-- ===== src/ScanServer/Scans/Classes/FirstCome.antt =====
-- Which class the assembler takes for a scan type (scan_server/scan_server/scan_manager.py and
-- scan_server/scan_server/scan_assembler.py).
use bec.Prelude.{
  String, Option, none, some, Bool, true, false, ◌||◌, ◌&&◌, not, List, [], ◌∷◌, ◌++◌, ◌≡◌, refl,
  ◌∙◌, ap, ◌==◌, string_eq, if◌then◌else◌, find, All, arith, Bool-cases, Option-cases, inl, inr,
}
use bec.Prelude.Dict.{
  Dict, lookup, insert, has, lookup-insert, lookup-insert_self, has-insert, has-lookup,
  lookup_absent,
}
use bec.ScanServer.Scans.Classes.Registry.{
  Member, ScanManager, is_ignored, register_scans, update_available_scans, key_error, failed,
  from_init, assemble_device_instructions,
}

module _ {C : Type 0} where
  -- No two members have one class name.
  abbrev pub IsDistinct : List (Member C) → Type 0
  IsDistinct [] = Unit {0}
  IsDistinct (m ∷ ms) = All (λ n. (m.class_name == n.class_name) ≡ false) ms × IsDistinct ms

  -- Is the member a scan of this name?
  abbrev pub is_named : String → Member C → Bool
  is_named t m = not (is_ignored m) && m.scan_name == t

  -- The class that a manager has for a scan name.
  unfoldable class_of : ScanManager C → String → Option C
  unfolding lookup
  class_of manager t = elim (lookup t manager.available_scans) [
    | none ↦ none
    | some n ↦ lookup n manager.scan_dict
  ]

  abbrev or_first : Option C → Option (Member C) → Option C
  or_first (some c) found = some c
  or_first none none = none
  or_first none (some m) = some m.class

  -- Every scan name that is taken has its class, and the members that are to come have new names.
  record IsOpenTo (ms : List (Member C)) (manager : ScanManager C) : Type 0 where
    linked :
        (t n : String) → lookup t manager.available_scans ≡ some n → has n manager.scan_dict ≡ true
    new : All (λ m. has m.class_name manager.scan_dict ≡ false) ms

  abbrev registered : Member C → ScanManager C → ScanManager C
  registered m manager = record {
    available_scans = insert m.scan_name m.class_name manager.available_scans;
    scan_dict = insert m.class_name m.class manager.scan_dict;
  }

  insert-All :
      (m : Member C) (ms : List (Member C)) (d : Dict String C)
      → All (λ n. (m.class_name == n.class_name) ≡ false) ms
      → All (λ n. has n.class_name d ≡ false) ms
      → All (λ n. has n.class_name (insert m.class_name m.class d) ≡ false) ms
  insert-All m [] d differ absent = tt
  insert-All m (n ∷ ms) d differ absent = (
    ground (arith, differ.0, absent.0, has-insert m.class_name n.class_name m.class d),
    insert-All m ms d differ.1 absent.1,
  )

  registered-IsOpenTo :
      (m : Member C) (ms : List (Member C)) (manager : ScanManager C)
      → IsDistinct (m ∷ ms)
      → IsOpenTo (m ∷ ms) manager
      → IsOpenTo ms (registered m manager)
  registered-IsOpenTo m ms manager d h = record {
    linked = λ t n e. ground (
      arith,
      lookup-insert m.scan_name t m.class_name manager.available_scans,
      has-insert m.class_name n m.class manager.scan_dict,
      string_eq.beq_iff m.class_name n,
      h.linked t n,
    );
    new = insert-All m ms manager.scan_dict d.0 h.new.1;
  }

  -- A registered member has its class, and the other scan names keep theirs.
  class_of-registered :
      (m : Member C) (ms : List (Member C)) (manager : ScanManager C) (t : String)
      → IsOpenTo (m ∷ ms) manager
      → class_of (registered m manager) t
        ≡ (if m.scan_name == t then some m.class else class_of manager t)
  unfolding class_of
  class_of-registered m ms manager t h = elim (Option-cases (lookup t manager.available_scans)) [
    | inl a ↦ ground (
      arith,
      a,
      lookup-insert m.scan_name t m.class_name manager.available_scans,
      lookup-insert_self m.class_name m.class manager.scan_dict,
    )
    | inr (n, a) ↦ ground (
      arith,
      a,
      lookup-insert m.scan_name t m.class_name manager.available_scans,
      lookup-insert_self m.class_name m.class manager.scan_dict,
      lookup-insert m.class_name n m.class manager.scan_dict,
      string_eq.beq_iff m.class_name n,
      h.linked t n a,
      h.new.0,
    )
  ]

  -- A scan name that is taken has a class.
  class_of-has :
      (ms : List (Member C)) (manager : ScanManager C) (t : String)
      → IsOpenTo ms manager
      → has t manager.available_scans ≡ true
      → (c : C) × (class_of manager t ≡ some c)
  unfolding class_of
  class_of-has ms manager t h e =
      let (n, a) = has-lookup t manager.available_scans e in
      let (c, b) = has-lookup n manager.scan_dict (h.linked t n a) in (c, rw (a, b, class_of) refl)

  class_of_absent :
      (manager : ScanManager C) (t : String)
      → has t manager.available_scans ≡ false
      → class_of manager t ≡ none
  unfolding class_of
  class_of_absent manager t e = rw (lookup_absent t manager.available_scans e, class_of) refl

  -- A member that is not registered is not the first with a new scan name.
  or_first_skip :
      (m : Member C) (ms : List (Member C)) (manager : ScanManager C) (t : String)
      → IsOpenTo (m ∷ ms) manager
      → (is_ignored m || has m.scan_name manager.available_scans) ≡ true
      → or_first (class_of manager t) (find (is_named t) ms)
        ≡ or_first (class_of manager t) (find (is_named t) (m ∷ ms))
  or_first_skip m ms manager t h e = elim (Option-cases (class_of manager t)) [
    | inl a ↦ elim (Bool-cases (has t manager.available_scans)) [
      | inl b ↦ cc (a, (class_of-has (m ∷ ms) manager t h b).1)
      | inr b ↦ ground (arith, string_eq.beq_iff m.scan_name t)
    ]
    | inr (c, a) ↦ rw a refl
  ]

  or_first_take :
      (m : Member C) (ms : List (Member C)) (manager : ScanManager C) (t : String)
      → (is_ignored m || has m.scan_name manager.available_scans) ≡ false
      → or_first
          (if m.scan_name == t then some m.class else class_of manager t)
          (find (is_named t) ms)
        ≡ or_first (class_of manager t) (find (is_named t) (m ∷ ms))
  or_first_take m ms manager t e =
      ground (arith, string_eq.beq_iff m.scan_name t, class_of_absent manager t)

  class_of-register_scans :
      (ms : List (Member C)) (manager : ScanManager C) (t : String)
      → IsDistinct ms
      → IsOpenTo ms manager
      → class_of (register_scans ms manager) t
        ≡ or_first (class_of manager t) (find (is_named t) ms)
  unfolding register_scans
  class_of-register_scans [] manager t d h = elim (Option-cases (class_of manager t)) [
    | inl e ↦ rw e refl
    | inr (c, e) ↦ rw e refl
  ]
  class_of-register_scans (m ∷ ms) manager t d h =
      elim (Bool-cases (is_ignored m || has m.scan_name manager.available_scans)) [
        | inl e ↦ rw e (
            class_of-register_scans ms manager t d.1 (record { linked = h.linked; new = h.new.1 })
            ∙ or_first_skip m ms manager t h e)
        | inr e ↦ rw e (
            class_of-register_scans ms (registered m manager) t d.1
              (registered-IsOpenTo m ms manager d h)
            ∙ ap (λ c. or_first c (find (is_named t) ms)) (class_of-registered m ms manager t h)
            ∙ or_first_take m ms manager t e)
      ]

  assemble_device_instructions_lem :
      {S : Type 0} (manager : ScanManager C) (init : C → Option S) (t : String)
      → assemble_device_instructions manager init t
        ≡ elim (class_of manager t) [ none ↦ failed key_error | some c ↦ from_init (init c) ]
  unfolding assemble_device_instructions class_of
  assemble_device_instructions_lem manager init t =
      elim (Option-cases (lookup t manager.available_scans)) [
        | inl a ↦ rw (a, assemble_device_instructions, class_of) refl
        | inr (n, a) ↦ elim (Option-cases (lookup n manager.scan_dict)) [
          | inl b ↦ rw (a, b, assemble_device_instructions, class_of) refl
          | inr (c, b) ↦ rw (a, b, assemble_device_instructions, class_of) refl
        ]
      ]

  all_new : (ms : List (Member C)) → All (λ m. has {V = C} m.class_name [] ≡ false) ms
  unfolding has
  all_new [] = tt
  all_new (m ∷ ms) = (refl, all_new ms)

  empty-IsOpenTo :
      (ms : List (Member C)) → IsOpenTo ms (record { available_scans = []; scan_dict = [] })
  unfolding lookup
  empty-IsOpenTo ms = record { linked = λ t n e. cc; new = all_new ms }

  -- If no two classes have one name, an assembly takes the first class with the scan type as its scan
  -- name, those of the plugins last, and is a KeyError where there is none.
  pub assemble_device_instructions-find :
      {S : Type 0} (members plugins : List (Member C)) (init : C → Option S) (t : String)
      → IsDistinct (members ++ plugins)
      → assemble_device_instructions (update_available_scans members plugins) init t
        ≡ elim (find (is_named t) (members ++ plugins)) [
          | none ↦ failed key_error
          | some m ↦ from_init (init m.class)
        ]
  unfolding update_available_scans has
  assemble_device_instructions-find members plugins init t d =
      let ms = members ++ plugins in
      let empty : ScanManager C = record { available_scans = []; scan_dict = [] } in
      let eq =
        class_of-register_scans ms empty t d (empty-IsOpenTo ms)
        ∙ ap (λ o. or_first o (find (is_named t) ms)) (class_of_absent empty t refl) in
      assemble_device_instructions_lem (register_scans ms empty) init t
      ∙ elim (Option-cases (find (is_named t) ms)) [
        | inl e ↦ rw (eq, e) refl
        | inr (m, e) ↦ rw (eq, e) refl
      ]
