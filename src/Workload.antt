-- ===== src/Workload.antt =====
-- `WorkloadBase` of colocator/demo/workload_defs/base.py: iterations of GPU work, two in flight.
--
-- torch, the CUDA stream and its events are not the program's. A stream runs its iterations in order.
-- `gpu n` says how many of the iterations in flight have ended by the time that the n-th launch
-- returns, so every theorem holds whatever the speed of the GPU. An event is the number of the
-- launches before it was recorded; waiting for it waits for those.
pub mod Slots
pub mod Pipeline
pub mod Calls
pub mod Calibrate
pub mod Examples
use cuda_schedule_project.Prelude.{
  ℕ, zero, suc, ◌+◌, ◌-◌, ◌*◌, ◌/◌, ◌%◌, Option, none, some, Bool, List, [], ◌∷◌, ◌++◌, length,
  drop, leb, ltb, ◌==◌, if◌then◌else◌,
}
use Prim.Native.Nat.{min, max}

abbrev pub depth : ℕ
depth = 2

abbrev pub target_ms : ℕ
target_ms = 500

abbrev pub calibrate_probes : ℕ
calibrate_probes = 4

-- The stream of a client: the launches so far, and the result slots of those still in flight,
-- the oldest first.
pub record Stream : Type 0 where
  pub launched : ℕ
  pub pending : List ℕ

pub record Workload : Type 0 where
  pub iters : Option ℕ
  pub events : List ℕ
  pub slot : ℕ
  pub stream : Stream

-- `__init__`, before any launch.
unfoldable pub new_workload : Option ℕ → Workload
new_workload iters = record {
  iters = iters;
  events = [];
  slot = 0;
  stream = record { launched = 0; pending = [] };
}

-- `event.synchronize()`
unfoldable pub sync_event : ℕ → Stream → Stream
sync_event event s = record s { pending = drop (event - (s.launched - length s.pending)) s.pending }

-- `self._events.popleft().synchronize()`
unfoldable pub wait_oldest : List ℕ → Workload → Workload
unfolding sync_event
wait_oldest [] w = w
wait_oldest (oldest ∷ events) w = record w { events = events; stream = sync_event oldest w.stream }

-- The `if` of `run_iter`: with `DEPTH` events it waits for the oldest.
unfoldable pub admit : Workload → Workload
unfolding wait_oldest
admit w = if leb depth (length w.events) then wait_oldest w.events w else w

unfoldable pub drain : Workload → Workload
drain w = record w { events = []; stream = record { launched = w.stream.launched; pending = [] } }

-- `round(a / b)`: the nearest integer, and the even one of two that are as near.
unfoldable pub round_div : ℕ → ℕ → ℕ
round_div a b =
    let q = a / b in
    let twice = 2 * (a % b) in
    if ltb twice b then q else if ltb b twice then q + 1 else if q % 2 == 0 then q else q + 1

-- The iterations for a timed section of `target` ms, from the time that the probes took, in ns:
-- `max(3, min(5000, round(target_ms / max(per_iter_ms, 1e-3))))` with both sides of the division
-- in ns for all probes together.
unfoldable pub calibrated_iters : ℕ → ℕ → ℕ
calibrated_iters target elapsed = max 3 (
    min 5000
      (round_div (target * 1_000_000 * calibrate_probes) (max elapsed (1000 * calibrate_probes))))

-- `if self.iters is not None: return`
abbrev pub unless_forced : Option ℕ → Workload → Workload → Workload
unless_forced (some forced) w measured = w
unless_forced none w measured = measured

module _ (gpu : ℕ → ℕ) where
  -- `launch_iter()` and the step to the next slot. The result is the buffer of the slot.
  unfoldable pub launch_iter : Workload → Workload × ℕ
  launch_iter w =
      let n = suc w.stream.launched in
      (
        record w {
          slot = (w.slot + 1) % depth;
          stream = record {
            launched = n;
            pending = drop (gpu n) (w.stream.pending ++ w.slot ∷ []);
          };
        },
        w.slot,
      )

  unfoldable pub record_event : Workload → Workload
  record_event w = record w { events = w.events ++ w.stream.launched ∷ [] }

  unfoldable pub run_iter : Workload → Workload × ℕ
  unfolding admit launch_iter record_event
  run_iter w = let (w', res) = launch_iter (admit w) in (record_event w', res)

  unfoldable pub run_iter_sync : Workload → Workload × ℕ
  unfolding drain launch_iter
  run_iter_sync w = let (w', res) = launch_iter (drain w) in (drain w', res)

  -- `for _ in range(n): self.run_iter()`
  unfoldable pub run_iters : ℕ → Workload → Workload
  unfolding run_iter
  run_iters zero w = w
  run_iters (suc n) w = run_iters n (run_iter w).0

  -- `calibrate` past its `return`. `elapsed` is the time that the block of probes took, in ns.
  unfoldable pub measure : ℕ → ℕ → Workload → Workload
  measure target elapsed w = record (drain (run_iters calibrate_probes (run_iters depth w))) {
    iters = some (calibrated_iters target elapsed);
  }

  unfoldable pub calibrate : ℕ → ℕ → Workload → Workload
  calibrate target elapsed w = unless_forced w.iters w (measure target elapsed w)
