-- ===== src/Analyze/Intervals.antt =====
-- `busy_intervals` and `overlap_ns` of colocator/analysis/analyze.py: the time in which a client
-- keeps the GPU busy, and the time in which two clients do.
pub mod Ticks
pub mod Merged
pub mod Busy
pub mod Overlap
pub mod Examples
use cuda_schedule_project.Prelude.{Bool, true, false, ◌&&◌, ◌||◌, List, [], ◌∷◌, any, if◌then◌else◌}
use cuda_schedule_project.Prelude.Int.{ℤ, pos, ◌+ℤ◌, ◌-ℤ◌, ltb_ℤ, leb_ℤ, max_ℤ, min_ℤ}

-- A GPU activity `[start, stop)`, in ns.
pub record Span : Type 0 where
  pub start : ℤ
  pub stop : ℤ

-- Python's order of the tuples `(start, stop)`.
abbrev pub span_leb : Span → Span → Bool
span_leb x y =
    if ltb_ℤ x.start y.start
    then true
    else if ltb_ℤ y.start x.start
    then false
    else leb_ℤ x.stop y.stop

-- `sorted` is a stable sort.
unfoldable pub insert_span : Span → List Span → List Span
insert_span x [] = x ∷ []
insert_span x (y ∷ ys) = if span_leb x y then x ∷ y ∷ ys else y ∷ insert_span x ys

unfoldable pub sort_spans : List Span → List Span
unfolding insert_span
sort_spans [] = []
sort_spans (x ∷ xs) = insert_span x (sort_spans xs)

-- The loop of `busy_intervals` from its second round on. `last` is `merged[-1]`, the only entry
-- that the body changes; the entries before it are final.
unfoldable pub merge_from : Span → List Span → List Span
merge_from last [] = last ∷ []
merge_from last (x ∷ xs) =
    let extended = merge_from (record last { stop = max_ℤ last.stop x.stop }) xs in
    let appended = last ∷ merge_from x xs in if leb_ℤ x.start last.stop then extended else appended

unfoldable pub merge_spans : List Span → List Span
unfolding merge_from
merge_spans [] = []
merge_spans (x ∷ xs) = merge_from x xs

-- `sum(e - s for s, e in merged)`
unfoldable pub total_ns : List Span → ℤ
total_ns [] = pos 0
total_ns (x ∷ xs) = (x.stop -ℤ x.start) +ℤ total_ns xs

unfoldable pub busy_intervals : List Span → ℤ × List Span
unfolding sort_spans merge_spans total_ns
busy_intervals spans = let merged = merge_spans (sort_spans spans) in (total_ns merged, merged)

-- The loop of `overlap_ns`: `a` and `b` are `a[i:]` and `b[j:]`.
unfoldable pub overlap_from : ℤ → List Span → List Span → ℤ
overlap_from total [] b = total
overlap_from total (x ∷ xs) [] = total
overlap_from total (x ∷ xs) (y ∷ ys) =
    let s = max_ℤ x.start y.start in
    let e = min_ℤ x.stop y.stop in
    let total' = if ltb_ℤ s e then total +ℤ (e -ℤ s) else total in
    let next_a = overlap_from total' xs (y ∷ ys) in
    let next_b = overlap_from total' (x ∷ xs) ys in if ltb_ℤ x.stop y.stop then next_a else next_b

unfoldable pub overlap_ns : List Span → List Span → ℤ
unfolding overlap_from
overlap_ns = overlap_from (pos 0)

-- Whether a nanosecond lies in an activity, and in one of several.
abbrev pub inside : ℤ → Span → Bool
inside t x = leb_ℤ x.start t && ltb_ℤ t x.stop

abbrev pub covered : List Span → ℤ → Bool
covered xs t = any (inside t) xs
