-- ===== src/Server/Dashboard.antt =====
-- internal/webui/handler.go: which page a path gives, and the report of the dashboard. The queries, the
-- clock and the formatting of UUIDs and times are parameters; a text is a number.
use cloud_credit_system.Common.{ℕ, ◌*◌, Option, none, some, List, map, Result, ok, err}
use mathlib.Core.Option
use cloud_credit_system.Common.Int.{ℤ, pos, ◌-ℤ◌}

-- `r.URL.Path`, as far as the handler tells paths apart.
pub data UiPath : Type 0 where
  stats_path report_path ui_path other_ui_path : UiPath

pub data UiPage : Type 0 where
  stats report redirect_to_sim simulator_page : UiPage

unfoldable pub page_of : UiPath → UiPage
page_of stats_path = stats
page_of report_path = report
page_of ui_path = redirect_to_sim
page_of other_ui_path = simulator_page

-- The rows of GetAllQuotaSnapshots and ListStaleClusters, in the columns that are read.
pub record ReportedSnapshot : Type 0 where
  pub tenant_id : ℕ
  pub resource_type : ℕ
  pub credits_total : ℤ
  pub debits_posted : ℤ
  pub debits_pending : ℤ
  pub available : Option ℤ
  pub snapshot_at : ℕ

pub record StaleCluster : Type 0 where
  pub id : ℕ
  pub tenant_id : ℕ
  pub cloud_provider : ℕ
  pub region : ℕ
  pub status : ℕ
  pub last_heartbeat : Option ℕ

pub record QuotaSnapshotJson : Type 0 where
  pub tenant_id : ℕ
  pub resource_type : ℕ
  pub credits_total : ℤ
  pub debits_posted : ℤ
  pub debits_pending : ℤ
  pub available : ℤ
  pub snapshot_at : ℕ

pub record StaleClusterJson : Type 0 where
  pub id : ℕ
  pub tenant_id : ℕ
  pub cloud_provider : ℕ
  pub region : ℕ
  pub status : ℕ
  pub last_heartbeat : ℕ

pub record ReportPayload : Type 0 where
  pub quota_snapshots : List QuotaSnapshotJson
  pub stale_clusters : List StaleClusterJson

pub data ReportError : Type 0 where
  get_all_quota_snapshots_failed list_stale_clusters_failed : ReportError

pub record ReportQueries : Type 0 where
  pub uuid_text : ℕ → ℕ
  pub utc_text : ℕ → ℕ
  pub get_all_quota_snapshots : Option (List ReportedSnapshot)
  pub list_stale_clusters : ℤ → Option (List StaleCluster)

-- `-5 * time.Minute`, in nanoseconds.
abbrev pub stale_after : ℤ
stale_after = pos (5 * 60_000_000_000)

abbrev pub zero_if_null : Option ℤ → ℤ
zero_if_null none = pos 0
zero_if_null (some x) = x

abbrev pub empty_if_null : Option ℕ → ℕ
empty_if_null none = 0
empty_if_null (some t) = t

module _ (q : ReportQueries) where
  unfoldable pub snapshot_json : ReportedSnapshot → QuotaSnapshotJson
  snapshot_json s = record {
    tenant_id = q.uuid_text s.tenant_id;
    resource_type = s.resource_type;
    credits_total = s.credits_total;
    debits_posted = s.debits_posted;
    debits_pending = s.debits_pending;
    available = zero_if_null s.available;
    snapshot_at = q.utc_text s.snapshot_at;
  }

  unfoldable pub stale_cluster_json : StaleCluster → StaleClusterJson
  stale_cluster_json c = record {
    id = q.uuid_text c.id;
    tenant_id = q.uuid_text c.tenant_id;
    cloud_provider = c.cloud_provider;
    region = c.region;
    status = c.status;
    last_heartbeat = empty_if_null (Option.map q.utc_text c.last_heartbeat);
  }

  -- The report at the time `now`.
  unfoldable pub serve_report : ℤ → Result ReportError ReportPayload
  serve_report now = elim q.get_all_quota_snapshots [
    | none ↦ err get_all_quota_snapshots_failed
    | some snapshots ↦ elim (q.list_stale_clusters (now -ℤ stale_after)) [
      | none ↦ err list_stale_clusters_failed
      | some clusters ↦ ok (record {
        quota_snapshots = map snapshot_json snapshots;
        stale_clusters = map stale_cluster_json clusters;
      })
    ]
  ]
