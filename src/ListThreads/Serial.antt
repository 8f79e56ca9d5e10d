-- ===== src/ListThreads/Serial.antt =====
-- What the calls of the list by threads leave.
use dv1580_a.Prelude.{ℕ, ◌+◌, ◌<◌, ◌≡◌, refl, false, length, arith}
use dv1580_a.Machine.{Platform, IsPlatform}
use dv1580_a.Memory.{Block}
use dv1580_a.Memory.Chain.{Cells}
use dv1580_a.Memory.Framed.{Framed-refl}
use dv1580_a.LinkedList.{Program}
use dv1580_a.LinkedList.Body.{ListCall}
use dv1580_a.LinkedList.Linked.{Items}
use dv1580_a.LinkedList.Ready.{IsList}
use dv1580_a.Monitor.{System, critical, start_of, Reach}
use dv1580_a.Monitor.Invariant.{Replays}
use dv1580_a.Monitor.Serial.{serial}
use dv1580_a.ListThreads.{list_monitor, View, view, Calls}
use dv1580_a.ListThreads.Good.{Good}
use dv1580_a.ListThreads.Serves.{list-Serves}

module _ {os : Platform Block} (laws : IsPlatform os) {n lo hi : ℕ} (k : ℕ) (pos : 0 < n)
    (low : 0 < lo) {s : Program} {xs : Cells} {items : Items}
    (list : IsList os n lo hi s xs items) where
  pub start-Good : Good os n lo hi s.manager xs (length xs + length items) s (view s items)
  start-Good = record {
    cells = xs;
    is_list = list;
    same_output = refl;
    few = omega arith;
    short = omega arith;
    framed = Framed-refl s.manager xs;
  }

  module _ {t : System Program ListCall ℕ} (fuel : length xs + length items + length t.log < k)
      (r : Reach (list_monitor os n k) (start_of s) t) where
    -- The state when no thread is in a call.
    pub quiet-Good :
        ((i : ℕ) → critical (t.threads i) ≡ false)
        → (y : View) × Replays Calls (view s items) t.log y
          × Good os n lo hi s.manager xs (length xs + length items + length t.log) t.object y
    quiet-Good quiet = serial (list-Serves laws k pos low s.manager xs) start-Good fuel r quiet
