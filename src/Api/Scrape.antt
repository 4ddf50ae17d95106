-- ===== src/Api/Scrape.antt =====
-- What Prometheus asks of the text of `handle_metrics`.
use daemon_choir.Base.{
  ℕ, ◌==◌, codes, join, Bool, true, false, not, ◌&&◌, ◌||◌, String, List, [], ◌∷◌, str_eq,
  if◌then◌else◌,
}
use daemon_choir.Api.{AppState}
use daemon_choir.Float.{F64}
use daemon_choir.Api.Exposition.{
  Label, bare, labelled, MetricLine, help, kind, sample, blank, metric_lines,
}

abbrev mem : String → List String → Bool
mem x [] = false
mem x (y ∷ ys) = str_eq x y || mem x ys

-- a character that may stand in a label's value by itself: no quote, newline or backslash
abbrev is_plain : ℕ → Bool
is_plain c = not (c == b'"' || (c == 10 || c == 92))

-- what may follow a backslash
abbrev is_escaped : ℕ → Bool
is_escaped c = c == b'"' || (c == b'n' || c == 92)

-- A text that may stand between a label's quotes.
abbrev pub is_value : List ℕ → Bool
is_value [] = true
is_value (c ∷ []) = is_plain c
is_value (c ∷ d ∷ rest) =
    let behind = is_value rest in
    let next = is_value (d ∷ rest) in if c == 92 then is_escaped d && behind else is_plain c && next

-- each text may be a label's value, and is not among those before it
abbrev pub are_new_values : List String → List String → Bool
are_new_values seen [] = true
are_new_values seen (x ∷ xs) =
    is_value (codes x) && (not (mem x seen) && are_new_values (x ∷ seen) xs)

abbrev is_label : Label → Bool
is_label bare = true
is_label (labelled key value) = is_value (codes value)

abbrev same_label : Label → Label → Bool
same_label bare bare = true
same_label (labelled k v) (labelled k' v') = str_eq k k' && str_eq v v'
same_label _ _ = false

abbrev repeats : String → Label → List (String × Label) → Bool
repeats name l [] = false
repeats name l ((name', l') ∷ rest) = (str_eq name name' && same_label l l') || repeats name l rest

-- the names of the samples that a metric of this type may have, where no type is no sample
abbrev names_of : String → String → List String
names_of family type =
    if str_eq type ""
    then []
    else if str_eq type "histogram"
    then join family "_bucket" ∷ join family "_sum" ∷ join family "_count" ∷ []
    else family ∷ []

abbrev lost_series : String → String × Label
lost_series name = ("events_lost_total", labelled "probe" name)

module _ {F : Type 0} where
  -- A text that Prometheus accepts, from the metric that was begun last on: each metric is begun once,
  -- with its HELP and then its TYPE, its samples follow it, no two of them are the same, and the value
  -- of each one's label, which is printed between quotes as it is, has a quote, a newline or a
  -- backslash only as an escape.
  abbrev pub is_exposition :
      String → String → List String → List (String × Label) → List (MetricLine F) → Bool
  is_exposition family type begun seen [] = true
  is_exposition family type begun seen (help name text ∷ rest) =
      not (mem name begun) && is_exposition name "" (name ∷ begun) [] rest
  is_exposition family type begun seen (kind name type' ∷ rest) =
      str_eq name family && (str_eq type "" && is_exposition family type' begun seen rest)
  is_exposition family type begun seen (sample name l n ∷ rest) =
      mem name (names_of family type)
      && (is_label l
          && (not (repeats name l seen) && is_exposition family type begun ((name, l) ∷ seen) rest))
  is_exposition family type begun seen (blank ∷ rest) = is_exposition family type begun seen rest

  -- the lines of the text
  abbrev pub lines_of : {Conn : Type 0} ⦃f : F64 F⦄ → AppState F Conn → List (MetricLine F)
  lines_of s =
      metric_lines s.osc_metrics s.probes_stats s.dispatch_latency_histogram
        s.api_response_histogram s.probe_load_errors_total
