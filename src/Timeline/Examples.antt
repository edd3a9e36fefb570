-- ===== src/Timeline/Examples.antt =====
-- The timeline of the example's trace, and the curve of a client that ran twice.
use mathlib.Core.List.{Perm}
use cuda_schedule_project.Prelude.{ℕ, ◌≡◌, refl, List, [], ◌∷◌, map, select, All, length}
use cuda_schedule_project.Prelude.Int.{pos}
use cuda_schedule_project.Prelude.Text.{codes}
use cuda_schedule_project.Prelude.Dict.{get, put}
use cuda_schedule_project.Analyze.Join.Calls.{range_from}
use cuda_schedule_project.Analyze.Pandas.{stable_sort}
use cuda_schedule_project.Analyze.Trace.Examples.{run_trace, computing}
use cuda_schedule_project.Analyze.SelfCheck.{client_ids, insert_id}
use cuda_schedule_project.Timeline.{
  Lane, lanes, lanes_of, launches, memcpys, curve, points, add_clients, latencies_by,
}
use cuda_schedule_project.Timeline.Lanes.{is_shown, rows_of, lanes-rows}
use cuda_schedule_project.Timeline.Curves.{IsRank, curve-IsRank}

lanes-rows_example : Perm (rows_of (lanes run_trace)) (select is_shown run_trace)
lanes-rows_example = lanes-rows run_trace

-- The cuBLAS call of the second client is in neither of its lanes.
no_cublas : map (λ (lane : Lane). length lane.rows) (lanes run_trace) ≡ 1 ∷ 1 ∷ 0 ∷ 0 ∷ []
unfolding computing lanes lanes_of launches memcpys client_ids insert_id
no_cublas = refl

abbrev laps : List ℕ
laps = 30 ∷ 10 ∷ 10 ∷ []

curve_30 : curve laps ≡ (10, 1) ∷ (10, 2) ∷ (30, 3) ∷ []
unfolding curve points stable_sort
curve_30 = refl

curve-IsRank_example :
    (map (λ (p : ℕ × ℕ). p.0) (curve laps) ≡ stable_sort (λ t. pos t) laps)
    × (map (λ (p : ℕ × ℕ). p.1) (curve laps) ≡ range_from 1 (length laps))
    × All (IsRank laps) (curve laps)
curve-IsRank_example = curve-IsRank laps

-- Of two clients of one name the plot has the latencies of the last.
last_of_two :
    latencies_by ((codes "seq", (codes "fma", 10 ∷ []) ∷ (codes "fma", 20 ∷ []) ∷ []) ∷ []) []
    ≡ (codes "fma", (codes "seq", 20 ∷ []) ∷ []) ∷ []
unfolding latencies_by add_clients get put
last_of_two = refl
