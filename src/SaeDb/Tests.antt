-- ===== src/SaeDb/Tests.antt =====
-- Commit heights of saedb with the default interval.
use strevm.Base.{arith, ℕ, true, ◌≡◌, ◌≤◌}
use strevm.SaeDb.{last_committed_trie_db_height, should_commit_trie_db}
use strevm.SaeDb.Commits.{last_committed_lem}

last_committed_lem_example :
    (last_committed_trie_db_height 10_000 4096 ≤ 10_000)
    × (should_commit_trie_db (last_committed_trie_db_height 10_000 4096) 4096 ≡ true)
    × ((k : ℕ)
        → k ≤ 10_000
        → should_commit_trie_db k 4096 ≡ true
        → k ≤ last_committed_trie_db_height 10_000 4096)
last_committed_lem_example = last_committed_lem 10_000 4096 (omega arith)
