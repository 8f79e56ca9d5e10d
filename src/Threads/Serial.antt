-- ===== src/Threads/Serial.antt =====
-- What the calls of the memory manager by threads leave, and the bytes that they spare.
use dv1580_a.Prelude.{ℕ, ◌+◌, ◌<◌, ◌≡◌, refl, ap, ◌∙◌, true, false, List, length, arith}
use dv1580_a.Machine.{Ptr, Platform, IsPlatform}
use dv1580_a.Spans.{Span, busy}
use dv1580_a.Memory.{Block, Manager}
use dv1580_a.Memory.Body.{Call}
use dv1580_a.Memory.Chain.{Cells, spans}
use dv1580_a.Memory.Framed.{Framed-refl}
use dv1580_a.Memory.Ready.{IsReady, lock-bytes, unlock-bytes}
use dv1580_a.Monitor.{System, critical, Step, begin, work, finish, start_of, Reach}
use dv1580_a.Monitor.Invariant.{holder, Replays, at_first, and_then}
use dv1580_a.Monitor.Serial.{Reach-Inv, serial}
use dv1580_a.Threads.{manager_monitor, perform, History, replay, Answers}
use dv1580_a.Threads.Serves.{Good, body-spares, Performs, manager-Serves}

pub Replays-replay :
    {xs ys : List Span} {log : History}
    → Replays Performs xs log ys
    → (ys ≡ replay xs log) × Answers xs log
Replays-replay at_first = (refl, tt)
Replays-replay (and_then {c} past (result, left)) =
    let (before, answers) = Replays-replay past in
    (
      left ∙ ap (λ zs. (perform c zs).1) before,
      (result ∙ ap (λ zs. (perform c zs).0) before, answers),
    )

module _ {os : Platform Block} (laws : IsPlatform os) {lo hi : ℕ} (k : ℕ) {m : Manager} {xs : Cells}
    (ready : IsReady os lo hi m xs) where
  pub start-Good : Good os lo hi m xs (length xs) m (spans xs)
  start-Good = record {
    cells = xs;
    ready = ready;
    left = refl;
    few = omega arith;
    framed = Framed-refl m xs;
  }

  module _ {t : System Manager Call Ptr} (fuel : length xs + length t.log < k)
      (r : Reach (manager_monitor os k) (start_of m) t) where
    -- The state when no thread is in a call.
    pub quiet-Good :
        ((i : ℕ) → critical (t.threads i) ≡ false)
        → (ys : List Span) × Replays Performs (spans xs) t.log ys
          × Good os lo hi m xs (length xs + length t.log) t.object ys
    quiet-Good quiet = serial (manager-Serves laws lo hi k m xs) start-Good fuel r quiet

    -- However the calls of the threads interleave, no step changes a byte of a block that is in
    -- use: `mem_resize` copies into a block that was free. The first state is in order, no step is
    -- a fault, and the fuel exceeds the number of blocks and calls by more than one.
    pub bytes_spared :
        {u : System Manager Call Ptr}
        → length xs + length t.log + 1 < k
        → Step (manager_monitor os k) t u
        → (a : ℕ) → busy a (replay (spans xs) t.log) ≡ true
        → u.object.bytes a ≡ t.object.bytes a
    bytes_spared more (begin i c stands e) a in_use = lock-bytes os t.object e a
    bytes_spared more (finish i c r' stands e) a in_use = unlock-bytes os t.object e a
    bytes_spared more (work i c r' stands e) a in_use =
        let serves = manager-Serves laws lo hi k m xs in
        let v = Reach-Inv serves start-Good fuel r in
        let (holds, only) = holder serves (spans xs) (length xs) v i (ap critical stands) in
        body-spares laws lo hi k c holds more e a (rw (Replays-replay v.past).0 in_use)
