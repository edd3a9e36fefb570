-- ===== src/Analyze/Trace/Foreign.antt =====
-- The kernels that another thread than the scheduler's launched.
use cuda_schedule_project.Prelude.{
  ℕ, ◌≡◌, refl, ◌≢◌, ◌↔◌, ◌⊎◌, inl, inr, true, false, List, [], ◌∷◌, select, Bool-cases, ◌==◌,
  ==_iff, arith,
}
use cuda_schedule_project.Analyze.Records.{KernelRecord, RuntimeRecord}
use cuda_schedule_project.Analyze.Kinds.{cbid_launch}
use cuda_schedule_project.Analyze.Trace.{RunData, first_record, other_thread, is_foreign}

-- The first launch record with the id is of another thread.
abbrev pub IsForeign : (tid correlation : ℕ) → List RuntimeRecord → Type 0
IsForeign tid corr [] = ⊥
IsForeign tid corr (r ∷ rs) =
    ((r.cbid ≡ 211) × (r.correlation ≡ corr) × (r.thread_id ≢ tid))
    ⊎ (((r.cbid ≢ 211) ⊎ (r.correlation ≢ corr)) × IsForeign tid corr rs)

neq : (a b : ℕ) → (a == b) ≡ false → a ≢ b
neq a b h e = ground arith

IsForeign-iff :
    (tid corr : ℕ) (rs : List RuntimeRecord)
    → (other_thread tid (first_record corr (select (λ r. r.cbid == cbid_launch) rs)) ≡ true)
      ↔ IsForeign tid corr rs
unfolding first_record
IsForeign-iff tid corr [] = (λ h. cc, λ h. absurd h)
IsForeign-iff tid corr (r ∷ rs) =
    let (to, from) = IsForeign-iff tid corr rs in
    elim (Bool-cases (r.cbid == cbid_launch)) [
      | inr e ↦
          let away = neq _ _ e in
          rw e (
            λ h. inr (inl away, to h),
            λ h. elim h [ inl (a, b, c) ↦ absurd (away a) | inr (w, f) ↦ from f ],
          )
      | inl e ↦
          let launched = (==_iff r.cbid 211).0 e in
          elim (Bool-cases (r.correlation == corr)) [
            | inr f ↦
                let away = neq _ _ f in
                rw (e, f)
                  (
                    λ h. inr (inr away, to h),
                    λ h. elim h [ inl (a, b, c) ↦ absurd (away b) | inr (w, g) ↦ from g ],
                  )
            | inl f ↦
                let same = (==_iff r.correlation corr).0 f in
                let here : ((r.cbid ≢ 211) ⊎ (r.correlation ≢ corr)) → ⊥ =
                  λ w. elim w [ inl a ↦ a launched | inr b ↦ b same ] in
                elim (Bool-cases (r.thread_id == tid)) [
                  | inl g ↦
                      let own_thread = (==_iff r.thread_id tid).0 g in
                      rw (e, f, g)
                        (
                          λ h. cc,
                          λ h. elim h [
                            | inl (a, b, c) ↦ absurd (c own_thread)
                            | inr (w, q) ↦ absurd (here w)
                          ],
                        )
                  | inr g ↦
                      let away = neq _ _ g in
                      rw (e, f, g) (λ h. inl (launched, same, away), λ h. refl)
                ]
          ]
    ]

pub is_foreign_iff :
    (md : RunData) (k : KernelRecord)
    → (is_foreign md k ≡ true) ↔ IsForeign md.sched_tid k.correlation md.runtime
unfolding is_foreign
is_foreign_iff md k = IsForeign-iff md.sched_tid k.correlation md.runtime
