-- ===== src/Receiver/Validate/Tests.antt =====
-- Validation of the example, of which one container has no id.
use mathlib.Core.List.{Sublistᴰ}
use traefik_connect.Common.{◌≡◌, ◌↔◌, refl, true, false, All}
use traefik_connect.Receiver.Tests.{web_snapshot}
use traefik_connect.Receiver.Validate.{
  check_containers, snapshot_issues, validate_snapshot, has_snapshot_issue,
  persisted_record_compatible,
}
use traefik_connect.Receiver.Validate.Laws.{
  validate_snapshot_sound, has_snapshot_issue_iff, IsComplete, HasDistinctIds,
}

pub faultless : has_snapshot_issue (validate_snapshot web_snapshot).0 ≡ false
unfolding has_snapshot_issue validate_snapshot snapshot_issues check_containers
faultless = refl

validate_snapshot_sound_example :
    All IsComplete (validate_snapshot web_snapshot).1.containers
    × HasDistinctIds (validate_snapshot web_snapshot).1.containers
    × Sublistᴰ (validate_snapshot web_snapshot).1.containers web_snapshot.containers
validate_snapshot_sound_example = validate_snapshot_sound web_snapshot

has_snapshot_issue_iff_example :
    (has_snapshot_issue (validate_snapshot web_snapshot).0 ≡ false)
    ↔ (persisted_record_compatible web_snapshot ≡ true)
has_snapshot_issue_iff_example = has_snapshot_issue_iff web_snapshot

pub kept_id : (validate_snapshot web_snapshot).1.worker_id ≡ "w1"
unfolding validate_snapshot
kept_id = refl

pub kept_time : (validate_snapshot web_snapshot).1.captured_at ≡ 7
unfolding validate_snapshot
kept_time = refl
