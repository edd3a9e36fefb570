-- ===== src/Timeline.antt =====
-- colocator/analysis/plot_timeline.py: the lanes and bars of the GPU timeline, and the curves of the
-- latencies.
--
-- matplotlib is not the program's: a plot is the list of what is drawn. A value that is missing in
-- a column is `none`, as is what is computed from it.
mod Clients
pub mod Lanes
pub mod Curves
pub mod Examples
use cuda_schedule_project.Prelude.{
  ℕ, suc, ◌+◌, ◌*◌, String, Bool, true, false, ◌&&◌, Option, none, some, List, [], ◌∷◌, ◌++◌, map,
  select, concat, length, ◌==◌, if◌then◌else◌,
}
use cuda_schedule_project.Prelude.Int.{ℤ, pos, negsuc, ◌-ℤ◌, max_ℤ, min_ℤ}
use cuda_schedule_project.Prelude.Text.{codes}
use cuda_schedule_project.Prelude.Dict.{Text, Dict, get, put}
use cuda_schedule_project.Analyze.Records.{OpKind}
use cuda_schedule_project.Analyze.Kinds.{in_memcpy_kinds, is_launch}
use cuda_schedule_project.Analyze.Trace.{TraceRow}
use cuda_schedule_project.Analyze.SelfCheck.{client_ids, is_matched}
use cuda_schedule_project.Analyze.Pandas.{stable_sort}

-- `load_trace`, from the rows of trace.json, if it exists.
unfoldable pub load_trace : Option (List TraceRow) → Option (List TraceRow)
load_trace none = none
load_trace (some rows) = some (select is_matched rows)

pub record Lane : Type 0 where
  pub client : ℕ
  pub is_memcpys : Bool
  pub rows : List TraceRow

unfoldable pub launches : ℕ → List TraceRow → List TraceRow
launches c trace = select (λ (op : TraceRow). op.client == c && is_launch op.kind) trace

unfoldable pub memcpys : ℕ → List TraceRow → List TraceRow
memcpys c trace = select (λ (op : TraceRow). op.client == c && in_memcpy_kinds op.kind) trace

-- The lanes of the clients, two each.
unfoldable pub lanes_of : List TraceRow → List ℕ → List Lane
lanes_of trace [] = []
lanes_of trace (c ∷ cs) =
    record { client = c; is_memcpys = false; rows = launches c trace }
    ∷ record { client = c; is_memcpys = true; rows = memcpys c trace }
    ∷ lanes_of trace cs

-- `lanes`
unfoldable pub lanes : List TraceRow → List Lane
lanes trace = lanes_of trace (client_ids trace)

-- Times of the plot are in units of 1/2000 ns, so that the least width is a whole number of them.
unfoldable pub scaled : ℤ → ℤ
scaled (pos n) = pos (n * 2000)
scaled (negsuc n) = negsuc (n * 2000 + 1999)

-- The largest of a column's values.
unfoldable pub max_column : List (Option ℤ) → Option ℤ
max_column [] = none
max_column (none ∷ column) = max_column column
max_column (some t ∷ column) = larger t (max_column column)
  where
    larger : ℤ → Option ℤ → Option ℤ
    larger t none = some t
    larger t (some u) = some (max_ℤ t u)

unfoldable pub min_column : List (Option ℤ) → Option ℤ
min_column [] = none
min_column (none ∷ column) = min_column column
min_column (some t ∷ column) = smaller t (min_column column)
  where
    smaller : ℤ → Option ℤ → Option ℤ
    smaller t none = some t
    smaller t (some u) = some (min_ℤ t u)

abbrev pub less : Option ℤ → Option ℤ → Option ℤ
less none b = none
less (some a) none = none
less (some a) (some b) = some (a -ℤ b)

-- `span_ms`, in ns: the width of the axis, if it is given, or the time from `t0` to the last end.
unfoldable pub span_of : Option ℤ → Option ℤ → List TraceRow → Option ℤ
span_of t0 (some width) trace = some width
span_of t0 none trace = less (max_column (map (λ (op : TraceRow). op.t_gpu_end_ns) trace)) t0

-- `max(a, b)`, which is `a` unless `b` is larger.
abbrev pub wider : Option ℤ → Option ℤ → Option ℤ
wider none b = none
wider (some a) none = some a
wider (some a) (some b) = some (max_ℤ a b)

pub record Bar : Type 0 where
  pub start : Option ℤ
  pub width : Option ℤ
  pub color : Text

-- `KERNEL_COLORS`
abbrev pub kernel_colors : Dict Text
kernel_colors =
    (codes "sgemm", codes "#d62728")
    ∷ (codes "elementwise", codes "#1f77b4")
    ∷ (codes "reduce", codes "#2ca02c")
    ∷ (codes "sleep", codes "#17becf")
    ∷ (codes "streamcopy", codes "#9467bd")
    ∷ (codes "blockcopy", codes "#bcbd22")
    ∷ (codes "fma32", codes "#e377c2")
    ∷ (codes "fma64", codes "#8c564b")
    ∷ (codes "other", codes "#7f7f7f")
    ∷ []

abbrev pub memcpy_color : Text
memcpy_color = codes "#ff7f0e"

abbrev pub or_gray : Option Text → Text
or_gray none = codes "#7f7f7f"
or_gray (some color) = color

unfoldable pub color_of : TraceRow → Text
color_of op =
    if is_launch op.kind then or_gray (get (codes op.name) kernel_colors) else memcpy_color

abbrev pub scaled_column : Option ℤ → Option ℤ
scaled_column none = none
scaled_column (some t) = some (scaled t)

-- The bar of a row, for the span in ns.
unfoldable pub bar_of : Option ℤ → Option ℤ → TraceRow → Bar
unfolding scaled color_of
bar_of t0 span op = record {
  start = scaled_column (less op.t_gpu_start_ns t0);
  width = wider (scaled_column (less op.t_gpu_end_ns op.t_gpu_start_ns)) span;
  color = color_of op;
}

-- `plot_gantt`: the lanes with their bars.
unfoldable pub plot_gantt : List TraceRow → Option ℤ → Option ℤ → List (Lane × List Bar)
unfolding lanes span_of bar_of
plot_gantt trace t0 xlim =
    map (λ (lane : Lane). (lane, map (bar_of t0 (span_of t0 xlim trace)) lane.rows)) (lanes trace)

-- `make_timeline`: the full span, and 80 ms of it.
unfoldable pub make_timeline :
    Option (List TraceRow) → Option (List (Lane × List Bar) × List (Lane × List Bar))
unfolding load_trace plot_gantt min_column
make_timeline file = elim (load_trace file) [
  | none ↦ none
  | some trace ↦
      let t0 = min_column (map (λ (op : TraceRow). op.t_gpu_start_ns) trace) in
      some (plot_gantt trace t0 none, plot_gantt trace t0 (some (pos 80_000_000)))
]

abbrev pub or_new : {V : Type 0} → Option (Dict V) → Dict V
or_new none = []
or_new (some d) = d

-- `clients`: the latencies by client and mode, from each mode's clients.
unfoldable pub add_clients :
    Text → List (Text × List ℕ) → Dict (Dict (List ℕ)) → Dict (Dict (List ℕ))
add_clients mode [] d = d
add_clients mode ((name, lat) ∷ cs) d =
    add_clients mode cs (put name (put mode lat (or_new (get name d))) d)

unfoldable pub latencies_by :
    List (Text × List (Text × List ℕ)) → Dict (Dict (List ℕ)) → Dict (Dict (List ℕ))
unfolding add_clients
latencies_by [] d = d
latencies_by ((mode, cs) ∷ modes) d = latencies_by modes (add_clients mode cs d)

-- The points of a curve: the latencies in order, each with its number, of which the share of all is
-- the height.
unfoldable pub points : ℕ → List ℕ → List (ℕ × ℕ)
points k [] = []
points k (x ∷ xs) = (x, k) ∷ points (suc k) xs

unfoldable pub curve : List ℕ → List (ℕ × ℕ)
unfolding points
curve lat = points 1 (stable_sort (λ t. pos t) lat)
