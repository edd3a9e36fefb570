-- ===== src/Demo/Windows.antt =====
-- The modes' windows on the clock keep the observer's records of the modes apart.
use native.Mathlib.Nat.{add-mul, le_of_mul-le-mul_right}
use cuda_schedule_project.Prelude.{
  ℕ, zero, suc, ◌+◌, ◌*◌, ◌≤◌, ◌<◌, ◌≡◌, refl, subst, inl, inr, Bool, Bool-cases, true, false, not,
  ◌&&◌, Option, some, List, [], ◌∷◌, All, get_elem?, arith,
}
use cuda_schedule_project.Prelude.Int.{ℤ, pos, leb_ℤ, ◌≤ℤ◌, ◌+ℤ◌, +ℤ_parts}
use cuda_schedule_project.Prelude.Dict.{Text, Dict}
use cuda_schedule_project.Prelude.Outcome.{Outcome, raises, returns, Outcome-cases}
use cuda_schedule_project.Analyze.Records.{KernelRecord}
use cuda_schedule_project.Analyze.Clock.{Clock, to_mono}
use cuda_schedule_project.Analyze.Trace.{RunData}
use cuda_schedule_project.Analyze.SelfCheck.{in_mode}
use cuda_schedule_project.Demo.{DemoError}
use cuda_schedule_project.Demo.Driver.{
  Mode, Choice, modes_of, Summed, summarize, Written, ran, Modes, run_modes, after_run, observed,
  main,
}
use cuda_schedule_project.Demo.Ends.{observed_run, main_run}

leb_ℤ→le : (a b : ℤ) → leb_ℤ a b ≡ true → a ≤ℤ b
leb_ℤ→le a b h = ground arith

le-trans_ℤ : (m : ℕ) (z : ℤ) (n : ℕ) → pos m ≤ℤ z → z ≤ℤ pos n → m ≤ n
le-trans_ℤ m z n h h' = omega (arith, h, h')

le-shift : (z : ℤ) (m n e : ℕ) → pos m ≤ℤ (z +ℤ pos e) → z ≤ℤ pos n → m ≤ n + e
le-shift z m n e h h' = omega (arith, h, h', +ℤ_parts z (pos e))

and_left : (p q : Bool) → (p && q) ≡ true → p ≡ true
and_left true q h = refl
and_left false q h = h

and_right : (p q : Bool) → (p && q) ≡ true → q ≡ true
and_right true q h = h
and_right false q h = cc

module _ {Res : Type 0} (gap : ℕ) where
  abbrev pub Later : ℕ → List (Written Res) → Type 0
  Later t files = All (λ (w : Written Res). t + gap < w.window.0) files

  -- Each window ends more than the gap before those behind it start.
  abbrev pub IsApart : List (Written Res) → Type 0
  IsApart [] = Unit
  IsApart (w ∷ files) = Later w.window.1 files × IsApart files

module _ {E Res : Type 0} (runner : Mode → Outcome (DemoError E) Res) (clients : Res → List Summed)
    (clock : ℕ → ℕ) (gap : ℕ) (ticking : (n : ℕ) → clock n + gap < clock (suc n)) where
  -- What holds of a mode's file and the files after it holds of what the mode's run leaves.
  after_run-cases :
      (P : List (Written Res) → Type 0) (m : Mode) (observer : Bool) (n : ℕ)
      (o : Outcome (DemoError E) Res) (later : Modes runner clients clock)
      → P []
      → ((res : Res)
          → let file : Written Res = record {
            mode = m;
            result = res;
            window = (clock n, clock (suc n));
            observer = observer;
          } in
            P (file ∷ []) × P (file ∷ later.0))
      → P (after_run runner clients clock m observer n o later).0
  after_run-cases P m observer n (raises e) later none more = none
  after_run-cases P m observer n (returns res) later none more =
      elim (Outcome-cases (summarize {E = E} (clients res))) [
        | inl (e, failed) ↦ rw failed (more res).0
        | inr (u, printed) ↦ rw printed (more res).1
      ]

  run_modes-Later :
      (observer : Bool) (t n : ℕ) (modes : List Mode)
      → t + gap < clock n
      → Later gap t (run_modes runner clients clock observer n modes).0
  unfolding run_modes
  run_modes-Later observer t n [] h = tt
  run_modes-Later observer t n (m ∷ modes) h =
      let rest =
        run_modes-Later observer t (suc (suc n)) modes
          (omega (arith, h, ticking n, ticking (suc n))) in
      after_run-cases (Later gap t) m observer n (runner m) _ tt (λ res. ((h, tt), (h, rest)))

  run_modes-IsApart :
      (observer : Bool) (n : ℕ) (modes : List Mode)
      → IsApart gap (run_modes runner clients clock observer n modes).0
  unfolding run_modes
  run_modes-IsApart observer n [] = tt
  run_modes-IsApart observer n (m ∷ modes) =
      let later = run_modes-Later observer (clock (suc n)) (suc (suc n)) modes (ticking (suc n)) in
      let rest = run_modes-IsApart observer (suc (suc n)) modes in
      after_run-cases (IsApart gap) m observer n (runner m) _ tt (λ res. ((tt, tt), (later, rest)))

  Later-get_elem? :
      (t : ℕ) (files : List (Written Res)) (j : ℕ) (b : Written Res)
      → Later gap t files
      → get_elem? files j ≡ some b
      → t + gap < b.window.0
  Later-get_elem? t [] j b h e = cc
  Later-get_elem? t (w ∷ files) zero b h e =
      let same : w ≡ b = cc in subst (λ (f : Written Res). t + gap < f.window.0) same h.0
  Later-get_elem? t (w ∷ files) (suc j) b h e = Later-get_elem? t files j b h.1 e

  IsApart-get_elem? :
      (files : List (Written Res)) (i j : ℕ) (a b : Written Res)
      → IsApart gap files
      → i < j
      → get_elem? files i ≡ some a
      → get_elem? files j ≡ some b
      → a.window.1 + gap < b.window.0
  IsApart-get_elem? [] i j a b h l e e' = cc
  IsApart-get_elem? (w ∷ files) i zero a b h l e e' = absurd (omega (arith, l))
  IsApart-get_elem? (w ∷ files) zero (suc j) a b h l e e' =
      let same : w ≡ a = cc in
      subst (λ (f : Written Res). f.window.1 + gap < b.window.0) same
        (Later-get_elem? w.window.1 files j b h.0 e')
  IsApart-get_elem? (w ∷ files) (suc i) (suc j) a b h l e e' =
      IsApart-get_elem? files i j a b h.1 (omega (arith, l)) e e'

-- The clock of a mode's calibration puts a record's time within `err` ns of the time `t`.
abbrev pub IsNear : Clock → (err start_ns t : ℕ) → Type 0
IsNear c err start_ns t =
    (to_mono c start_ns ≤ℤ pos ((t + err) * c.unit))
    × (pos (t * c.unit) ≤ℤ (to_mono c start_ns +ℤ pos (err * c.unit)))

-- The bounds of a window, on the time itself.
module _ (md : RunData) (k : KernelRecord) (err t : ℕ) (u : 0 < md.clock.unit)
    (near : IsNear md.clock err k.start_ns t) (lo hi : ℕ) where
  in_mode-bounds : in_mode md (some (lo, hi)) k ≡ true → (lo ≤ t + err) × (t ≤ hi + err)
  in_mode-bounds h =
      let c = md.clock in
      let z = to_mono c k.start_ns in
      let low = pos (lo * c.unit) in
      let high = pos (hi * c.unit) in
      let from = leb_ℤ→le low z (and_left (leb_ℤ low z) (leb_ℤ z high) h) in
      let until = leb_ℤ→le z high (and_right (leb_ℤ low z) (leb_ℤ z high) h) in
      (
        le_of_mul-le-mul_right (le-trans_ℤ _ z _ from near.0) u,
        le_of_mul-le-mul_right (rw (add-mul hi err c.unit) (le-shift z _ _ _ near.1 until)) u,
      )

module _ {E Res : Type 0} (runner : Mode → Outcome (DemoError E) Res) (clients : Res → List Summed)
    (clock : ℕ → ℕ) (err : ℕ) (ticking : (n : ℕ) → clock n + 2 * err < clock (suc n)) where
  -- Let the clock go on by more than `2 * err` ns between any two readings, and let two modes of one
  -- run, each with the offset of its own calibration, put a kernel record of the observer, whose
  -- dumps are cumulative, within `err` ns of the time when the kernel started. If the self-check of
  -- the earlier mode finds the record in that mode's window, that of the later mode does not find it
  -- in its own.
  pub main-isolates :
      (obs_ok : Bool) (libcol : Text) (torch_loaded : Bool) (env : Dict Text) (choice : Choice)
      (observer : Bool) (files : List (Written Res)) (error : Option (DemoError E)) (i j : ℕ)
      (a b : Written Res) (md md' : RunData) (k : KernelRecord) (t : ℕ)
      → main runner clients clock obs_ok libcol torch_loaded env choice observer ≡ ran files error
      → i < j
      → get_elem? files i ≡ some a
      → get_elem? files j ≡ some b
      → 0 < md.clock.unit
      → 0 < md'.clock.unit
      → IsNear md.clock err k.start_ns t
      → IsNear md'.clock err k.start_ns t
      → in_mode md (some a.window) k ≡ true
      → in_mode md' (some b.window) k ≡ false
  unfolding main
  main-isolates obs_ok libcol torch_loaded env choice observer files error i j a b md md' k t h l e
        e' u u' near near' hit =
      let r = run_modes runner clients clock observer 0 (modes_of choice) in
      let o = main_run _ _ (observed runner clients clock obs_ok choice observer) files error h in
      let (same, _) = observed_run (observer && not obs_ok) r.0 r.1 files error o in
      let apart =
        subst (IsApart (2 * err)) same
          (run_modes-IsApart runner clients clock (2 * err) ticking observer 0 (modes_of choice)) in
      let gap =
        IsApart-get_elem? runner clients clock (2 * err) ticking files i j a b apart l e e' in
      let early = (in_mode-bounds md k err t u near a.window.0 a.window.1 hit).1 in
      elim (Bool-cases (in_mode md' (some b.window) k)) [
        | inr out ↦ out
        | inl back ↦
            let late = (in_mode-bounds md' k err t u' near' b.window.0 b.window.1 back).0 in
            absurd (omega (arith, gap, early, late))
      ]
