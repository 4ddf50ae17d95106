-- ===== src/Api/Exposition.antt =====
-- `handle_metrics` of control_api.rs: the lines of the text that Prometheus reads.
use daemon_choir.Base.{join, decimal, ℕ, String, List, [], ◌∷◌, ◌++◌, map}
use daemon_choir.Float.{F64}
use daemon_choir.Probes.{ProbeStats}
use daemon_choir.Osc.{OscMetrics}
use daemon_choir.Osc.Histogram.{PrometheusHistogram}

pub data Number (F : Type 0) : Type 0 where
  counted : ℕ → Number F
  millis : F → Number F

-- one label in braces, as `backend="osc"`, or none
pub data Label : Type 0 where
  bare : Label
  labelled : (key value : String) → Label

-- `# HELP name text`, `# TYPE name kind`, `name{label} number`, and an empty line
pub data MetricLine (F : Type 0) : Type 0 where
  help kind : String → String → MetricLine F
  sample : String → Label → Number F → MetricLine F
  blank : MetricLine F

abbrev render_label : Label → String
render_label bare = ""
render_label (labelled key value) = join "{" (join key (join "=\"" (join value "\"}")))

module _ {F : Type 0} where
  abbrev pub lost_line : ProbeStats → MetricLine F
  lost_line p = sample "events_lost_total" (labelled "probe" p.name) (counted p.events_lost)

  abbrev pub osc_lines : OscMetrics → List (MetricLine F)
  osc_lines m =
      help "osc_dispatch_total" "Total OSC dispatches attempted"
      ∷ kind "osc_dispatch_total" "counter"
      ∷ sample "osc_dispatch_total" (labelled "backend" "osc") (counted m.osc_dispatch_total)
      ∷ blank
      ∷ help "osc_dispatch_success_total" "Successful OSC dispatches"
      ∷ kind "osc_dispatch_success_total" "counter"
      ∷ sample "osc_dispatch_success_total" (labelled "backend" "osc")
          (counted m.osc_dispatch_success_total)
      ∷ blank
      ∷ []

  module _ ⦃f : F64 F⦄ where
    -- `sum_us as f64 / 1000.0`
    abbrev pub sum_ms : PrometheusHistogram → Number F
    sum_ms h = millis (f.div (f.of_nat h.sum_us) (f.of_nat 1000))

    abbrev pub dispatch_lines : PrometheusHistogram → List (MetricLine F)
    dispatch_lines h =
        help "dispatch_latency_ms" "Ring buffer to OSC dispatch latency"
        ∷ kind "dispatch_latency_ms" "histogram"
        ∷ sample "dispatch_latency_ms_bucket" (labelled "le" "5") (counted h.bucket_le_5)
        ∷ sample "dispatch_latency_ms_bucket" (labelled "le" "10") (counted h.bucket_le_10)
        ∷ sample "dispatch_latency_ms_bucket" (labelled "le" "20") (counted h.bucket_le_20)
        ∷ sample "dispatch_latency_ms_bucket" (labelled "le" "+Inf") (counted h.count)
        ∷ sample "dispatch_latency_ms_sum" bare (sum_ms h)
        ∷ sample "dispatch_latency_ms_count" bare (counted h.count)
        ∷ blank
        ∷ []

    abbrev pub response_lines : PrometheusHistogram → List (MetricLine F)
    response_lines h =
        help "api_response_ms" "Control API response latency"
        ∷ kind "api_response_ms" "histogram"
        ∷ sample "api_response_ms_bucket" (labelled "le" "5") (counted h.bucket_le_5)
        ∷ sample "api_response_ms_bucket" (labelled "le" "10") (counted h.bucket_le_10)
        ∷ sample "api_response_ms_bucket" (labelled "le" "20") (counted h.bucket_le_20)
        ∷ sample "api_response_ms_bucket" (labelled "le" "+Inf") (counted h.count)
        ∷ sample "api_response_ms_sum" bare (sum_ms h)
        ∷ sample "api_response_ms_count" bare (counted h.count)
        ∷ blank
        ∷ []

    abbrev pub load_lines : ℕ → List (MetricLine F)
    load_lines err_total =
        help "probe_load_errors_total" "eBPF probe load failures"
        ∷ kind "probe_load_errors_total" "counter"
        ∷ sample "probe_load_errors_total" bare (counted err_total)
        ∷ []

    abbrev pub after_probes : PrometheusHistogram → PrometheusHistogram → ℕ → List (MetricLine F)
    after_probes dispatch_latency api_response err_total =
        blank
        ∷ (dispatch_lines dispatch_latency ++ (response_lines api_response ++ load_lines err_total))

    -- the whole text, pushed line by line
    unfoldable pub metric_lines :
        OscMetrics
        → List ProbeStats
        → PrometheusHistogram
        → PrometheusHistogram
        → ℕ
        → List (MetricLine F)
    metric_lines m probes dispatch_latency api_response err_total =
        osc_lines m
        ++ (help "events_lost_total" "Ring buffer events lost due to overflow"
            ∷ kind "events_lost_total" "counter"
            ∷ (map lost_line probes ++ after_probes dispatch_latency api_response err_total))

    abbrev render_number : Number F → String
    render_number (counted n) = decimal n
    render_number (millis x) = f.display x

    abbrev render_line : MetricLine F → String
    render_line (help name text) = join "# HELP " (join name (join " " (join text "\n")))
    render_line (kind name type) = join "# TYPE " (join name (join " " (join type "\n")))
    render_line (sample name label number) =
        join name (join (render_label label) (join " " (join (render_number number) "\n")))
    render_line blank = "\n"

    -- what `push_str` makes of the lines
    abbrev pub render : List (MetricLine F) → String
    render [] = ""
    render (line ∷ rest) = join (render_line line) (render rest)
