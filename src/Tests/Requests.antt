-- ===== src/Tests/Requests.antt =====
-- internal/printer, internal/httpapi, internal/ws and internal/scanner: requests and scans on small inputs.
use raku_sika_hub.Prelude.{ℕ, refl, true, false, none, some, List, [], ◌∷◌, bytes, pos, arith}
use raku_sika_hub.Result
use raku_sika_hub.Label.{LabelData, Fields, build_label_data, normalize_request_data}
use raku_sika_hub.Raster.{Image, gray}
use raku_sika_hub.Printer.Print.{Station, Afterwards, print_label}
use raku_sika_hub.Printer.Print.Once.{Sends, MaySend, print_label-Sends}
use raku_sika_hub.Api.{PrintRequest}
use raku_sika_hub.Api.Http.{handle_printer_print}
use raku_sika_hub.Api.Socket.{handle_print}
use raku_sika_hub.Api.Socket.Same.{Alike, handle_printer_print-handle_print}
use raku_sika_hub.Scanner.Typed.{type_text, needs_shift, key_for, idle}
use raku_sika_hub.Scanner.Reads.{Read, Written, run_reads, HasArrived, run_reads-typed}
use raku_sika_hub.Tests.Stations.{small_cups, queue_name}

abbrev white_label : Image
white_label = record { width = 696; height = 150; at = λ x y. gray 255 }

abbrev pub small_station : Station
small_station = record {
  name = queue_name;
  no_roll_check = false;
  renderer = some (λ shrunk label.
      some (record { image = some white_label; size = some 2000; height_mm = 13 }));
  can_write = true;
}

abbrev pub small_afterwards : Afterwards
small_afterwards = record {
  attempts = record { jobs = []; failed = false; took = 10 } ∷ [];
  now = 0;
  result = none;
}

abbrev small_fields : Fields
small_fields = ("individualNumber", bytes " 12 ") ∷ []

abbrev small_request : PrintRequest
small_request = record { template = "carcass_deer"; copies = pos 2; fields = small_fields }

abbrev small_label : LabelData
small_label = build_label_data "carcass_deer" 2 (normalize_request_data small_fields) []

print_label-Sends_example :
    Sends
      (MaySend small_cups small_station small_label [])
      []
      (print_label small_cups small_station small_afterwards small_label []).0
      (print_label small_cups small_station small_afterwards small_label []).1
print_label-Sends_example =
    print_label-Sends small_cups small_station small_label [] small_afterwards

handle_printer_print-handle_print_example :
    Alike
      (handle_printer_print small_cups small_station small_afterwards [] 5000 []
        (some small_request)
        [])
      (handle_print small_cups small_station small_afterwards [] (some small_request) [])
handle_printer_print-handle_print_example =
    handle_printer_print-handle_print small_cups small_station small_afterwards [] 5000 []
      (some small_request) []

-- The text A1, in two reads.
abbrev written : ℕ → ℕ → ℕ → Written
written kind code value = record {
  time = λ i. i;
  event = record { kind = kind; code = code; value = value };
}

abbrev two_reads : List Read
two_reads =
    record {
      at = 10;
      written =
          written 1 42 1
          ∷ written 0 0 0
          ∷ written 1 30 1
          ∷ written 0 0 0
          ∷ written 1 30 0
          ∷ written 0 0 0
          ∷ written 1 42 0
          ∷ [];
    }
    ∷ record {
      at = 20;
      written =
          written 0 0 0
          ∷ written 1 2 1
          ∷ written 0 0 0
          ∷ written 1 2 0
          ∷ written 0 0 0
          ∷ written 1 28 1
          ∷ written 0 0 0
          ∷ written 1 28 0
          ∷ written 0 0 0
          ∷ [];
    }
    ∷ []

run_reads-typed_example : HasArrived (bytes "A1") (run_reads two_reads (idle [] none))
unfolding type_text needs_shift key_for
run_reads-typed_example = run_reads-typed b'A' (b'1' ∷ []) two_reads none (omega arith) refl
