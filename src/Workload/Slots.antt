-- ===== src/Workload/Slots.antt =====
-- A well-formed pipeline, and what a launch and a wait do to its slots and events.
use cuda_schedule_project.Prelude.{
  ℕ, zero, suc, ◌+◌, ◌-◌, ◌%◌, ◌≤◌, ◌<◌, ◌≡◌, ◌≢◌, refl, Option, List, [], ◌∷◌, ◌++◌, All, length,
  drop, arith,
}
use cuda_schedule_project.Workload.{Workload, new_workload, depth, sync_event, admit}

-- The result slots in flight, with `slot` the next: the newest has the other slot, and one before
-- it has this one.
abbrev pub SlotsFit : ℕ → List ℕ → Type 0
SlotsFit slot [] = Unit
SlotsFit slot (s ∷ []) = s ≡ (slot + 1) % depth
SlotsFit slot (s ∷ t ∷ []) = (s ≡ slot) × (t ≡ (slot + 1) % depth)
SlotsFit slot (s ∷ t ∷ u ∷ rest) = ⊥

-- The events are those of the last launches, the newest last.
abbrev pub EventsFit : ℕ → List ℕ → Type 0
EventsFit launched [] = Unit
EventsFit launched (a ∷ []) = a ≡ launched
EventsFit launched (a ∷ b ∷ []) = (a + 1 ≡ launched) × (b ≡ launched)
EventsFit launched (a ∷ b ∷ c ∷ rest) = ⊥

pub record IsPipelined (w : Workload) : Type 0 where
  pub slot_lt : w.slot < depth
  pub slots_fit : SlotsFit w.slot w.stream.pending
  pub events_fit : EventsFit w.stream.launched w.events
  pub pending_le : length w.stream.pending ≤ length w.events
  pub events_le : length w.events ≤ w.stream.launched

pub new_workload-IsPipelined : (iters : Option ℕ) → IsPipelined (new_workload iters)
unfolding new_workload
new_workload-IsPipelined iters = ground arith

-- The state in which a launch is made.
pub record IsAdmitted (w : Workload) : Type 0 where
  pub slot_lt : w.slot < depth
  pub slots_fit : SlotsFit w.slot w.stream.pending
  pub events_fit : EventsFit w.stream.launched w.events
  pub pending_le : length w.stream.pending ≤ 1
  pub events_lt : length w.events < depth
  pub pending_events : length w.stream.pending ≤ length w.events
  pub events_le : length w.events ≤ w.stream.launched

pub drop-nil : (k : ℕ) → drop {A = ℕ} k [] ≡ []
drop-nil zero = refl
drop-nil (suc k) = refl

abbrev pub assemble : Option ℕ → List ℕ → ℕ → ℕ → List ℕ → Workload
assemble iters events slot launched pending = record {
  iters = iters;
  events = events;
  slot = slot;
  stream = record { launched = launched; pending = pending };
}

pub admit_parts :
    (iters : Option ℕ) (events : List ℕ) (slot launched : ℕ) (pending : List ℕ)
    → IsPipelined (assemble iters events slot launched pending)
    → IsAdmitted (admit (assemble iters events slot launched pending))
unfolding admit
admit_parts iters [] slot launched [] v = ground arith
admit_parts iters [] slot launched (s ∷ pending) v = absurd (omega (arith, v.pending_le))
admit_parts iters (a ∷ []) slot launched [] v = ground arith
admit_parts iters (a ∷ []) slot launched (s ∷ []) v = ground arith
admit_parts iters (a ∷ []) slot launched (s ∷ t ∷ pending) v = absurd (omega (arith, v.pending_le))
admit_parts iters (a ∷ b ∷ []) slot launched [] v = rw drop-nil (ground arith)
admit_parts iters (a ∷ b ∷ []) slot launched (s ∷ []) v =
    let e : a - (launched - 1) ≡ 0 = omega (arith, v.events_fit, v.events_le) in
    rw (e, sync_event) (ground arith)
admit_parts iters (a ∷ b ∷ []) slot launched (s ∷ t ∷ []) v =
    let e : a - (launched - 2) ≡ 1 = omega (arith, v.events_fit, v.events_le) in
    rw (e, sync_event) (ground arith)
admit_parts iters (a ∷ b ∷ []) slot launched (s ∷ t ∷ u ∷ pending) v = absurd v.slots_fit
admit_parts iters (a ∷ b ∷ c ∷ events) slot launched pending v = absurd v.events_fit

pub admit-IsAdmitted : (w : Workload) → IsPipelined w → IsAdmitted (admit w)
admit-IsAdmitted w v = admit_parts w.iters w.events w.slot w.stream.launched w.stream.pending v

-- A launch, after which the GPU has ended `k` of the iterations in flight.
abbrev pub after_launch : ℕ → Option ℕ → List ℕ → ℕ → ℕ → List ℕ → Workload
after_launch k iters events slot launched pending =
    assemble iters (events ++ suc launched ∷ []) ((slot + 1) % depth) (suc launched)
      (drop k (pending ++ slot ∷ []))

pub launch_parts :
    (k : ℕ) (iters : Option ℕ) (events : List ℕ) (slot launched : ℕ) (pending : List ℕ)
    → IsAdmitted (assemble iters events slot launched pending)
    → IsPipelined (after_launch k iters events slot launched pending)
launch_parts zero iters [] slot launched [] v = ground arith
launch_parts (suc zero) iters [] slot launched [] v = ground arith
launch_parts (suc (suc k)) iters [] slot launched [] v = ground arith
launch_parts k iters [] slot launched (s ∷ pending) v = absurd (omega (arith, v.pending_events))
launch_parts zero iters (a ∷ []) slot launched [] v = ground arith
launch_parts (suc zero) iters (a ∷ []) slot launched [] v = ground arith
launch_parts (suc (suc k)) iters (a ∷ []) slot launched [] v = ground arith
launch_parts zero iters (a ∷ []) slot launched (s ∷ []) v = ground arith
launch_parts (suc zero) iters (a ∷ []) slot launched (s ∷ []) v = ground arith
launch_parts (suc (suc k)) iters (a ∷ []) slot launched (s ∷ []) v = rw drop-nil (ground arith)
launch_parts k iters (a ∷ []) slot launched (s ∷ t ∷ pending) v =
    absurd (omega (arith, v.pending_le))
launch_parts k iters (a ∷ b ∷ events) slot launched pending v = absurd (omega (arith, v.events_lt))

-- No iteration in flight uses the slot.
abbrev pub SlotFree : ℕ → List ℕ → Type 0
SlotFree slot pending = All (λ s. s ≢ slot) pending

pub slot_free :
    (slot : ℕ) (pending : List ℕ)
    → slot < depth
    → SlotsFit slot pending
    → length pending ≤ 1
    → SlotFree slot pending
slot_free slot [] h k l = tt
slot_free slot (s ∷ []) h k l = omega arith
slot_free slot (s ∷ t ∷ pending) h k l = absurd (omega arith)

pub events_few :
    (launched : ℕ) (events : List ℕ) → EventsFit launched events → length events ≤ depth
events_few launched [] h = omega arith
events_few launched (a ∷ []) h = omega arith
events_few launched (a ∷ b ∷ []) h = omega arith
events_few launched (a ∷ b ∷ c ∷ events) h = absurd h

pub in_flight_le : {w : Workload} → IsPipelined w → length w.stream.pending ≤ depth
in_flight_le {w} v = omega (arith, v.pending_le, events_few w.stream.launched w.events v.events_fit)
