-- ===== src/Tests/Classes.antt =====
-- The registry of scans at work (scan_server/scan_server/scan_manager.py and scan_assembler.py).
use bec.Prelude.{ℕ, none, some, true, List, [], ◌∷◌, ◌++◌, ◌≡◌, refl, find}
use bec.ScanServer.Scans.Classes.Registry.{
  Member, update_available_scans, key_error, failed, from_init, assemble_device_instructions,
}
use bec.ScanServer.Scans.Classes.FirstCome.{is_named, IsDistinct, assemble_device_instructions-find}

abbrev members : List (Member ℕ)
members =
    record { class_name = "Move"; scan_name = "mv"; is_scan = true; class = 1 }
    ∷ record { class_name = "RequestBase"; scan_name = ""; is_scan = true; class = 2 }
    ∷ record { class_name = "Scan"; scan_name = "grid_scan"; is_scan = true; class = 3 }
    ∷ []

-- The second plugin has a scan name that is taken.
abbrev plugins : List (Member ℕ)
plugins =
    record { class_name = "SgalilGrid"; scan_name = "sgalil_grid"; is_scan = true; class = 4 }
    ∷ record { class_name = "LamNIMove"; scan_name = "mv"; is_scan = true; class = 5 }
    ∷ []

all_IsDistinct : IsDistinct (members ++ plugins)
all_IsDistinct = (
  (refl, (refl, (refl, (refl, tt)))),
  ((refl, (refl, (refl, tt))), ((refl, (refl, tt)), ((refl, tt), (tt, tt)))),
)

assemble_device_instructions-find_example :
    assemble_device_instructions (update_available_scans members plugins) (λ c. some c) "mv"
    ≡ elim (find (is_named "mv") (members ++ plugins)) [
      | none ↦ failed key_error
      | some m ↦ from_init (some m.class)
    ]
assemble_device_instructions-find_example =
    assemble_device_instructions-find members plugins (λ c. some c) "mv" all_IsDistinct
