-- ===== src/Analyze/Intervals/Merged.antt =====
-- What the sort and the merge of `busy_intervals` keep: the nanoseconds that are covered, and the
-- order and the bounds of the spans.
use cuda_schedule_project.Prelude.{
  Bool, true, false, ◌||◌, ◌≡◌, refl, ◌∙◌, inl, inr, List, [], ◌∷◌, All, arith, Bool-cases,
}
use cuda_schedule_project.Prelude.Int.{ℤ, ◌≤ℤ◌, ◌<ℤ◌, leb_ℤ, max_ℤ}
use cuda_schedule_project.Analyze.Intervals.{
  Span, span_leb, insert_span, sort_spans, merge_from, merge_spans, inside, covered,
}

abbrev pub StartsFrom : ℤ → List Span → Type 0
StartsFrom a xs = All (λ (x : Span). a ≤ℤ x.start) xs

abbrev pub StartsAfter : ℤ → List Span → Type 0
StartsAfter a xs = All (λ (x : Span). a <ℤ x.start) xs

abbrev IsAscending : List Span → Type 0
IsAscending [] = Unit
IsAscending (x ∷ xs) = StartsFrom x.start xs × IsAscending xs

-- Every span ends before the next ones start.
abbrev pub IsSeparated : List Span → Type 0
IsSeparated [] = Unit
IsSeparated (x ∷ xs) = StartsAfter x.stop xs × IsSeparated xs

-- A span that ends no earlier than it starts and lies between two times.
abbrev pub IsWithin : ℤ → ℤ → Span → Type 0
IsWithin lo hi x = (lo ≤ℤ x.start) × (x.start ≤ℤ x.stop) × (x.stop ≤ℤ hi)

StartsFrom-le : (a b : ℤ) (xs : List Span) → a ≤ℤ b → StartsFrom b xs → StartsFrom a xs
StartsFrom-le a b [] h k = tt
StartsFrom-le a b (x ∷ xs) h k = (omega arith, StartsFrom-le a b xs h k.1)

StartsAfter-lt : (a b : ℤ) (xs : List Span) → a <ℤ b → StartsFrom b xs → StartsAfter a xs
StartsAfter-lt a b [] h k = tt
StartsAfter-lt a b (x ∷ xs) h k = (omega arith, StartsAfter-lt a b xs h k.1)

-- The sort.
All-insert_span :
    (P : Span → Type 0) (x : Span) (xs : List Span) → P x → All P xs → All P (insert_span x xs)
unfolding insert_span
All-insert_span P x [] h k = (h, tt)
All-insert_span P x (y ∷ ys) h k = elim (Bool-cases (span_leb x y)) [
  | inl e ↦ rw e (h, k)
  | inr e ↦ rw e (k.0, All-insert_span P x ys h k.1)
]

All-sort_spans : (P : Span → Type 0) (xs : List Span) → All P xs → All P (sort_spans xs)
unfolding sort_spans
All-sort_spans P [] h = tt
All-sort_spans P (x ∷ xs) h = All-insert_span P x (sort_spans xs) h.0 (All-sort_spans P xs h.1)

insert_span-IsAscending :
    (x : Span) (xs : List Span) → IsAscending xs → IsAscending (insert_span x xs)
unfolding insert_span
insert_span-IsAscending x [] h = (tt, tt)
insert_span-IsAscending x (y ∷ ys) h = elim (Bool-cases (span_leb x y)) [
  | inl e ↦
      let below : x.start ≤ℤ y.start = ground arith in
      rw e ((below, StartsFrom-le x.start y.start ys below h.0), h)
  | inr e ↦
      let below : y.start ≤ℤ x.start = ground arith in
      rw e (
        All-insert_span (λ (z : Span). y.start ≤ℤ z.start) x ys below h.0,
        insert_span-IsAscending x ys h.1,
      )
]

sort_spans-IsAscending : (xs : List Span) → IsAscending (sort_spans xs)
unfolding sort_spans
sort_spans-IsAscending [] = tt
sort_spans-IsAscending (x ∷ xs) =
    insert_span-IsAscending x (sort_spans xs) (sort_spans-IsAscending xs)

covered-insert_span :
    (t : ℤ) (x : Span) (xs : List Span)
    → covered (insert_span x xs) t ≡ (inside t x || covered xs t)
unfolding insert_span
covered-insert_span t x [] = refl
covered-insert_span t x (y ∷ ys) = elim (Bool-cases (span_leb x y)) [
  | inl e ↦ rw e
  | inr e ↦ rw e (swap (inside t x) (inside t y) (covered ys t) (covered-insert_span t x ys))
]
  where
    swap : (a b c : Bool) {d : Bool} → d ≡ (a || c) → (b || d) ≡ (a || (b || c))
    swap true true c h = refl
    swap true false c h = h
    swap false true c h = refl
    swap false false c h = h

covered-sort_spans : (t : ℤ) (xs : List Span) → covered (sort_spans xs) t ≡ covered xs t
unfolding sort_spans
covered-sort_spans t [] = refl
covered-sort_spans t (x ∷ xs) =
    rw (covered-insert_span t x (sort_spans xs), covered-sort_spans t xs)

-- The merge.
inside_joined :
    (t : ℤ) (x y : Span)
    → x.start ≤ℤ y.start
    → leb_ℤ y.start x.stop ≡ true
    → inside t (record x { stop = max_ℤ x.stop y.stop }) ≡ (inside t x || inside t y)
unfolding max_ℤ
inside_joined t x y h k = ground arith

or_assoc : (a b c : Bool) → ((a || b) || c) ≡ (a || (b || c))
or_assoc true b c = refl
or_assoc false b c = refl

covered-merge_from :
    (t : ℤ) (x : Span) (xs : List Span)
    → StartsFrom x.start xs
    → IsAscending xs
    → covered (merge_from x xs) t ≡ (inside t x || covered xs t)
unfolding merge_from
covered-merge_from t x [] h s = refl
covered-merge_from t x (y ∷ ys) h s = elim (Bool-cases (leb_ℤ y.start x.stop)) [
  | inl e ↦ rw e (
      covered-merge_from t (record x { stop = max_ℤ x.stop y.stop }) ys h.1 s.1
      ∙ rw (inside_joined t x y h.0 e, or_assoc))
  | inr e ↦ rw (e, covered-merge_from t y ys s.0 s.1)
]

All-merge_from :
    (P : Span → Type 0)
    → ((x y : Span) → P x → P y → P (record x { stop = max_ℤ x.stop y.stop }))
    → (x : Span) (xs : List Span) → P x
    → All P xs
    → All P (merge_from x xs)
unfolding merge_from
All-merge_from P join x [] h k = (h, tt)
All-merge_from P join x (y ∷ ys) h k = elim (Bool-cases (leb_ℤ y.start x.stop)) [
  | inl e ↦
      rw e (All-merge_from P join (record x { stop = max_ℤ x.stop y.stop }) ys (join x y h k.0) k.1)
  | inr e ↦ rw e (h, All-merge_from P join y ys k.0 k.1)
]

merge_from-IsSeparated :
    (x : Span) (xs : List Span) → IsAscending xs → IsSeparated (merge_from x xs)
unfolding merge_from
merge_from-IsSeparated x [] s = (tt, tt)
merge_from-IsSeparated x (y ∷ ys) s = elim (Bool-cases (leb_ℤ y.start x.stop)) [
  | inl e ↦ rw e (merge_from-IsSeparated (record x { stop = max_ℤ x.stop y.stop }) ys s.1)
  | inr e ↦
      let gap : x.stop <ℤ y.start = ground arith in
      rw e (
        StartsAfter-lt x.stop y.start (merge_from y ys) gap (
            All-merge_from (λ (z : Span). y.start ≤ℤ z.start) (λ u v h k. h) y ys (omega arith)
              s.0),
        merge_from-IsSeparated y ys s.1,
      )
]

IsWithin-joined :
    (lo hi : ℤ) (x y : Span)
    → IsWithin lo hi x
    → IsWithin lo hi y
    → IsWithin lo hi (record x { stop = max_ℤ x.stop y.stop })
unfolding max_ℤ
IsWithin-joined lo hi x y h k = ground arith

pub covered-merge_spans :
    (t : ℤ) (xs : List Span) → covered (merge_spans (sort_spans xs)) t ≡ covered xs t
unfolding merge_spans
covered-merge_spans t xs =
    merged (sort_spans xs) (sort_spans-IsAscending xs) ∙ covered-sort_spans t xs
  where
    merged : (ys : List Span) → IsAscending ys → covered (merge_spans ys) t ≡ covered ys t
    merged [] s = refl
    merged (y ∷ ys) s = covered-merge_from t y ys s.0 s.1

pub merge_spans-IsSeparated : (xs : List Span) → IsSeparated (merge_spans (sort_spans xs))
unfolding merge_spans
merge_spans-IsSeparated xs = merged (sort_spans xs) (sort_spans-IsAscending xs)
  where
    merged : (ys : List Span) → IsAscending ys → IsSeparated (merge_spans ys)
    merged [] s = tt
    merged (y ∷ ys) s = merge_from-IsSeparated y ys s.1

pub merge_spans-IsWithin :
    (lo hi : ℤ) (xs : List Span)
    → All (IsWithin lo hi) xs
    → All (IsWithin lo hi) (merge_spans (sort_spans xs))
unfolding merge_spans
merge_spans-IsWithin lo hi xs h = merged (sort_spans xs) (All-sort_spans (IsWithin lo hi) xs h)
  where
    merged : (ys : List Span) → All (IsWithin lo hi) ys → All (IsWithin lo hi) (merge_spans ys)
    merged [] k = tt
    merged (y ∷ ys) k = All-merge_from (IsWithin lo hi) (IsWithin-joined lo hi) y ys k.0 k.1
