-- ===== src/Tests/Versions.antt =====
-- Runs of the version comparison and of the update latch.
use michi_music_stream.Prelude.{◌≡◌, codes}
use michi_music_stream.Semver.{less, semver_cmp}
use michi_music_stream.Semver.Order.{labelled, semver_cmp-cycle}

semver_cmp-cycle_example :
    (semver_cmp (labelled 0 3 0 (codes "a2")) (labelled 0 3 0 (codes "a10")) ≡ less)
    × (semver_cmp (labelled 0 3 0 (codes "a10")) (labelled 0 3 0 (codes "a1b")) ≡ less)
    × (semver_cmp (labelled 0 3 0 (codes "a1b")) (labelled 0 3 0 (codes "a2")) ≡ less)
semver_cmp-cycle_example = semver_cmp-cycle 0 3 0
