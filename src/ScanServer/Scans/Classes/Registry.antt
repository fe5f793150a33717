-- ===== src/ScanServer/Scans/Classes/Registry.antt =====
-- The registry of scans (scan_server/scan_server/scan_manager.py) and the assembler that looks a
-- request's class up in it (scan_server/scan_server/scan_assembler.py). C stands for classes; what
-- getmembers finds, and what a class's __init__ does, are arguments.
use bec.Prelude.{
  String, Option, none, some, Bool, ◌||◌, not, List, [], ◌∷◌, ◌++◌, ◌==◌, string_eq, if◌then◌else◌,
}
use bec.Prelude.Dict.{Dict, lookup, insert, has}

-- A member of a module: a class with its name, scan_name and whether it derives from RequestBase.
pub record Member (C : Type 0) : Type 0 where
  pub class_name : String
  pub scan_name : String
  pub is_scan : Bool
  pub class : C

-- scan_dict, and of available_scans the class names.
pub record ScanManager (C : Type 0) : Type 0 where
  pub available_scans : Dict String String
  pub scan_dict : Dict String C

module _ {C : Type 0} where
  abbrev pub is_ignored : Member C → Bool
  is_ignored m = not m.is_scan || m.scan_name == ""

  -- The loop of update_available_scans. A scan name that is there keeps its class.
  unfoldable pub register_scans : List (Member C) → ScanManager C → ScanManager C
  unfolding has insert
  register_scans [] manager = manager
  register_scans (m ∷ ms) manager =
      if is_ignored m || has m.scan_name manager.available_scans
      then register_scans ms manager
      else register_scans ms (record {
        available_scans = insert m.scan_name m.class_name manager.available_scans;
        scan_dict = insert m.class_name m.class manager.scan_dict;
      })

  -- __init__, with the members of scans.py before those of the plugins.
  unfoldable pub update_available_scans : List (Member C) → List (Member C) → ScanManager C
  unfolding register_scans
  update_available_scans members plugins =
      register_scans (members ++ plugins) (record { available_scans = []; scan_dict = [] })

pub data AssemblyError : Type 0 where
  key_error scan_abortion : AssemblyError

pub data Assembled (S : Type 0) : Type 0 where
  assembled : S → Assembled S
  failed : AssemblyError → Assembled S

abbrev pub from_init : {S : Type 0} → Option S → Assembled S
from_init none = failed scan_abortion
from_init (some s) = assembled s

-- assemble_device_instructions of a scan type; `init` creates an instance, none where that raises.
unfoldable pub assemble_device_instructions :
    {C S : Type 0} → ScanManager C → (C → Option S) → String → Assembled S
unfolding lookup
assemble_device_instructions manager init scan_type =
    elim (lookup scan_type manager.available_scans) [
      | none ↦ failed key_error
      | some cls_name ↦ elim (lookup cls_name manager.scan_dict) [
        | none ↦ failed key_error
        | some cls ↦ from_init (init cls)
      ]
    ]
