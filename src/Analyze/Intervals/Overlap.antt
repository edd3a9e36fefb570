-- ===== src/Analyze/Intervals/Overlap.antt =====
-- What `overlap_ns` computes: the nanoseconds in which both lists of spans are active.
use cuda_schedule_project.Prelude.{
  ℕ, ◌+◌, Bool, true, false, ◌&&◌, ◌≡◌, refl, ◌∙◌, ap, inl, inr, List, [], ◌∷◌, All, arith,
  Bool-cases, if◌then◌else◌,
}
use cuda_schedule_project.Prelude.Int.{
  ℤ, pos, ◌+ℤ◌, ◌-ℤ◌, ◌≤ℤ◌, ltb_ℤ, max_ℤ, min_ℤ, int_laws, pos_parts,
}
use cuda_schedule_project.Analyze.Intervals.{
  Span, inside, covered, total_ns, overlap_from, overlap_ns,
}
use cuda_schedule_project.Analyze.Intervals.Ticks.{
  bit, ticks, ticks_balance, ticks-ext, ticks-false, ticks-inside,
}
use cuda_schedule_project.Analyze.Intervals.Merged.{IsSeparated, IsWithin, StartsAfter}

covered-StartsAfter : (t a : ℤ) (xs : List Span) → t ≤ℤ a → StartsAfter a xs → covered xs t ≡ false
covered-StartsAfter t a [] h k = refl
covered-StartsAfter t a (x ∷ xs) h k = ground (arith, covered-StartsAfter t a xs h k.1)

inside-not_covered :
    (t : ℤ) (x : Span) (xs : List Span)
    → StartsAfter x.stop xs
    → inside t x ≡ true
    → covered xs t ≡ false
inside-not_covered t x xs h k = covered-StartsAfter t x.stop xs (ground arith) h

-- Separated spans: their lengths add up to the nanoseconds that they cover.
pub ticks-covered :
    (lo : ℤ) (n : ℕ) (xs : List Span)
    → IsSeparated xs
    → All (IsWithin lo (lo +ℤ pos n)) xs
    → pos (ticks (covered xs) lo n) ≡ total_ns xs
unfolding total_ns
ticks-covered lo n [] s w = ap pos (ticks-false lo n)
ticks-covered lo n (x ∷ xs) s w = omega (
  int_laws,
  ticks_balance (covered (x ∷ xs)) (λ _. false) (λ t. inside t x) (covered xs) lo n point,
  ticks-false lo n,
  pos_parts _ _ (ticks-inside x lo n w.0.0 w.0.1 w.0.2),
  pos_parts _ _ (ticks-covered lo n xs s.1 w.1),
)
  where
    point : (t : ℤ) → bit (covered (x ∷ xs) t) + bit false ≡ bit (inside t x) + bit (covered xs t)
    point t = elim (Bool-cases (inside t x)) [
      | inl e ↦ rw (e, inside-not_covered t x xs s.0 e) (omega arith)
      | inr e ↦ rw e (omega arith)
    ]

abbrev pub both : List Span → List Span → ℤ → Bool
both xs ys t = covered xs t && covered ys t

-- The part that the heads of two lists share.
abbrev shared : Span → Span → Span
shared x y = record { start = max_ℤ x.start y.start; stop = min_ℤ x.stop y.stop }

inside-shared : (t : ℤ) (x y : Span) → inside t (shared x y) ≡ (inside t x && inside t y)
unfolding max_ℤ min_ℤ
inside-shared t x y = ground arith

-- What one round adds to the total.
abbrev gain : Span → Span → ℤ
gain x y =
    let s = max_ℤ x.start y.start in
    let e = min_ℤ x.stop y.stop in if ltb_ℤ s e then e -ℤ s else pos 0

none_shared :
    (x y : Span) (t : ℤ)
    → ltb_ℤ (max_ℤ x.start y.start) (min_ℤ x.stop y.stop) ≡ false
    → inside t (shared x y) ≡ false
none_shared x y t e = ground arith

shared-IsWithin :
    (lo hi : ℤ) (x y : Span)
    → IsWithin lo hi x
    → IsWithin lo hi y
    → ltb_ℤ (max_ℤ x.start y.start) (min_ℤ x.stop y.stop) ≡ true
    → IsWithin lo hi (shared x y)
unfolding max_ℤ min_ℤ
shared-IsWithin lo hi x y hx hy e = ground arith

gain-ticks :
    (x y : Span) (lo : ℤ) (n : ℕ)
    → IsWithin lo (lo +ℤ pos n) x
    → IsWithin lo (lo +ℤ pos n) y
    → pos (ticks (λ t. inside t (shared x y)) lo n) ≡ gain x y
gain-ticks x y lo n hx hy =
    elim (Bool-cases (ltb_ℤ (max_ℤ x.start y.start) (min_ℤ x.stop y.stop))) [
      | inl e ↦
          let w = shared-IsWithin lo (lo +ℤ pos n) x y hx hy e in
          rw e (ticks-inside (shared x y) lo n w.0 w.1 w.2)
      | inr e ↦ rw e (
          ap pos (
            ticks-ext (λ t. inside t (shared x y)) (λ _. false) lo n (λ t. none_shared x y t e)
            ∙ ticks-false lo n))
    ]

and_false : (b : Bool) → (b && false) ≡ false
and_false true = refl
and_false false = refl

module _ (x y : Span) (xs ys : List Span) where
  -- The head of `a` ends first: what it shares with `b`, it shares with the head of `b`.
  both_next_a :
      StartsAfter x.stop xs
      → StartsAfter y.stop ys
      → ltb_ℤ x.stop y.stop ≡ true
      → (t : ℤ)
      → bit (both (x ∷ xs) (y ∷ ys) t) + bit false
        ≡ bit (inside t (shared x y)) + bit (both xs (y ∷ ys) t)
  both_next_a hx hy e t = rw (inside-shared t x y) (elim (Bool-cases (inside t x)) [
    | inl i ↦
        rw (i, inside-not_covered t x xs hx i, covered-StartsAfter t y.stop ys (ground arith) hy)
          (ground arith)
    | inr i ↦ rw i (omega arith)
  ])

  both_next_b :
      StartsAfter x.stop xs
      → StartsAfter y.stop ys
      → ltb_ℤ x.stop y.stop ≡ false
      → (t : ℤ)
      → bit (both (x ∷ xs) (y ∷ ys) t) + bit false
        ≡ bit (inside t (shared x y)) + bit (both (x ∷ xs) ys t)
  both_next_b hx hy e t = rw (inside-shared t x y) (elim (Bool-cases (inside t y)) [
    | inl i ↦
        rw (i, inside-not_covered t y ys hy i, covered-StartsAfter t x.stop xs (ground arith) hx)
          (ground arith)
    | inr i ↦ rw (i, and_false (inside t x)) (omega arith)
  ])

-- The total after one round.
abbrev next_total : ℤ → Span → Span → ℤ
next_total total x y =
    if ltb_ℤ (max_ℤ x.start y.start) (min_ℤ x.stop y.stop)
    then total +ℤ (min_ℤ x.stop y.stop -ℤ max_ℤ x.start y.start)
    else total

next_total_lem : (total : ℤ) (x y : Span) → next_total total x y ≡ total +ℤ gain x y
next_total_lem total x y = elim (Bool-cases (ltb_ℤ (max_ℤ x.start y.start) (min_ℤ x.stop y.stop))) [
  | inl e ↦ rw e
  | inr e ↦ rw e (omega int_laws)
]

regroup :
    (lo : ℤ) (n : ℕ) (total : ℤ) (x y : Span) (a d : ℕ)
    → IsWithin lo (lo +ℤ pos n) x
    → IsWithin lo (lo +ℤ pos n) y
    → a + ticks (λ _. false) lo n ≡ ticks (λ t. inside t (shared x y)) lo n + d
    → total +ℤ gain x y +ℤ pos d ≡ total +ℤ pos a
regroup lo n total x y a d hx hy h =
    omega (int_laws, ticks-false lo n, h, pos_parts _ _ (gain-ticks x y lo n hx hy))

overlap_from-ticks :
    (lo : ℤ) (n : ℕ) (total : ℤ) (xs ys : List Span)
    → IsSeparated xs
    → IsSeparated ys
    → All (IsWithin lo (lo +ℤ pos n)) xs
    → All (IsWithin lo (lo +ℤ pos n)) ys
    → overlap_from total xs ys ≡ total +ℤ pos (ticks (both xs ys) lo n)
unfolding overlap_from
overlap_from-ticks lo n total [] ys sx sy wx wy = rw (ticks-false lo n) (omega int_laws)
overlap_from-ticks lo n total (x ∷ xs) [] sx sy wx wy =
    rw (ticks-ext (both (x ∷ xs) []) (λ _. false) lo n (λ t. and_false _), ticks-false lo n)
      (omega int_laws)
overlap_from-ticks lo n total (x ∷ xs) (y ∷ ys) sx sy wx wy =
    elim (Bool-cases (ltb_ℤ x.stop y.stop)) [
      | inl e ↦
          rw
            (
              e,
              overlap_from-ticks lo n (next_total total x y) xs (y ∷ ys) sx.1 sy wx.1 wy,
              next_total_lem total x y,
            )
            (regroup lo n total x y _ _ wx.0 wy.0
              (ticks_balance _ _ _ _ lo n (both_next_a x y xs ys sx.0 sy.0 e)))
      | inr e ↦
          rw
            (
              e,
              overlap_from-ticks lo n (next_total total x y) (x ∷ xs) ys sx sy.1 wx wy.1,
              next_total_lem total x y,
            )
            (regroup lo n total x y _ _ wx.0 wy.0
              (ticks_balance _ _ _ _ lo n (both_next_b x y xs ys sx.0 sy.0 e)))
    ]

pub overlap_ns-ticks :
    (lo : ℤ) (n : ℕ) (xs ys : List Span)
    → IsSeparated xs
    → IsSeparated ys
    → All (IsWithin lo (lo +ℤ pos n)) xs
    → All (IsWithin lo (lo +ℤ pos n)) ys
    → overlap_ns xs ys ≡ pos (ticks (both xs ys) lo n)
unfolding overlap_ns
overlap_ns-ticks lo n xs ys sx sy wx wy =
    overlap_from-ticks lo n (pos 0) xs ys sx sy wx wy ∙ omega int_laws
