-- ===== src/Tests/FileWriter.antt =====
-- The file writer at work (file_writer/file_writer/file_writer_manager.py).
use bec.Prelude.{ℕ, String, some, true, List, [], ◌∷◌, All, ◌≡◌, refl, length}
use bec.FileWriter.Storage.{Server}
use bec.FileWriter.Manager.{
  ScanStatusMessage, ScanMessage, Arrival, scan_status, scan_segments, arrive_all,
  file_writer_manager,
}
use bec.FileWriter.Complete.{IsComplete, arrive_all-IsComplete}

abbrev server : Server ℕ
server = record {
  public_scan_baseline = λ i. some (("samx", 3) ∷ []);
  public_file = λ i. [];
  device_async_readback = λ i.
      (
        "eiger",
        record { async_update = some "append"; signals = ("frame", 1) ∷ [] }
            ∷ record { async_update = some "append"; signals = ("frame", 2) ∷ [] }
            ∷ [],
      )
      ∷ [];
  compile_full_filename = λ n. 7;
  write = λ s. true;
}

abbrev status : String → ScanStatusMessage ℕ
status t = record {
  scan_id = some "s1";
  status = t;
  timestamp = 5;
  info = record {
    scan_number = some 4;
    num_points = some 2;
    enforce_sync = some true;
    fields = ("DIID", 1) ∷ ("exp_time", 2) ∷ [];
  };
}

abbrev segment : ℕ → Server ℕ × ScanMessage ℕ
segment point = (
  server,
  record { scan_id = some "s1"; scan_number = some 4; point_id = point; readings = point },
)

-- The closing status comes before the last point.
abbrev arrivals : List (Arrival ℕ)
arrivals =
    scan_status server (status "open")
    ∷ scan_segments (segment 0 ∷ [])
    ∷ scan_status server (status "closed")
    ∷ scan_segments (segment 1 ∷ [])
    ∷ []

one_file : length (arrive_all arrivals file_writer_manager).written ≡ 1
unfolding arrive_all
one_file = refl

arrive_all-IsComplete_example : All IsComplete (arrive_all arrivals file_writer_manager).written
arrive_all-IsComplete_example = arrive_all-IsComplete arrivals
