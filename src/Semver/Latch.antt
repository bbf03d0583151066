-- ===== src/Semver/Latch.antt =====
-- The version latch of firmware/components/michi_ota/michi_ota_logic.c.
use michi_music_stream.Prelude.{ℕ, Bool, true, false, ◌&&◌, ◌||◌, not, Option, none, some, List}
use michi_music_stream.Semver.Newer.{IsAbove}
use michi_music_stream.Semver.{Semver, Sign, more, semver_parse, semver_cmp, is_same}

-- `nvs_version_cmp_to_running`; PARSE_FAILED is `none`.
unfoldable pub version_cmp : Option Semver → Option Semver → Option Sign
version_cmp (some p) (some r) = some (semver_cmp p r)
version_cmp p r = none

unfoldable pub nvs_version_cmp_to_running : List ℕ → List ℕ → Option Sign
nvs_version_cmp_to_running nvs running = version_cmp (semver_parse nvs) (semver_parse running)

unfoldable pub is_more : Sign → Bool
is_more more = true
is_more r = false

-- The guard on the version that the latch records.
unfoldable pub repeats_pending : Option Semver → Semver → Semver → Bool
repeats_pending none running target = false
repeats_pending (some pending) running target =
    is_same (semver_cmp pending running) && not (is_more (semver_cmp target pending))

unfoldable pub blocks_parsed : Option Semver → Option Semver → Option Semver → Bool
blocks_parsed pending (some running) (some target) =
    not (is_more (semver_cmp target running)) || repeats_pending pending running target
blocks_parsed pending running target = true

unfoldable pub latch_should_block : List ℕ → List ℕ → List ℕ → Bool
latch_should_block pending running target =
    blocks_parsed (semver_parse pending) (semver_parse running) (semver_parse target)

-- The parsed versions of an update that the latch lets through: both are well formed, and the target
-- is above the running image.
pub data IsNewer : Option Semver → Option Semver → Type 0 where
  newer : (running target : Semver) → IsAbove target running → IsNewer (some running) (some target)
