-- ===== src/SaeDb.antt =====
-- saedb/saedb.go and the decisions of saedb/tracker.go: which state roots are committed to disk.
pub mod Commits
mod Tests
use strevm.Base.{ℕ, ◌-◌, ◌%◌, Bool, Option, none, some, leb, ◌==◌, if◌then◌else◌}

-- `ShouldCommitTrieDB`; the interval is not zero.
pub should_commit_trie_db : ℕ → ℕ → Bool
should_commit_trie_db block_num commit_interval = block_num % commit_interval == 0

-- `LastCommittedTrieDBHeight`
pub last_committed_trie_db_height : ℕ → ℕ → ℕ
last_committed_trie_db_height at_or_before commit_interval =
    at_or_before - at_or_before % commit_interval

-- `Config`, without the configuration of the trie database.
pub record Config : Type 0 where
  pub archival : Bool
  pub trie_commit_interval : ℕ

-- `defaultCommitInterval`
abbrev pub default_commit_interval : ℕ
default_commit_interval = 4096

pub commit_interval : Config → ℕ
commit_interval c =
    if c.trie_commit_interval == 0 then default_commit_interval else c.trie_commit_interval

-- The root that `MaybeCommit` commits, if any.
pub maybe_commit : Config → ℕ → ℕ → ℕ → Option ℕ
unfolding should_commit_trie_db commit_interval
maybe_commit c settled_root execution_root height =
    if c.archival
    then some execution_root
    else if should_commit_trie_db height (commit_interval c)
    then some settled_root
    else none

-- `LastHeightWithExecutionRootCommitted` for the head of the chain; `settled_height` reads the
-- header at a height.
pub last_height_with_execution_root_committed : Config → (ℕ → ℕ) → ℕ → ℕ → ℕ
unfolding last_committed_trie_db_height commit_interval
last_height_with_execution_root_committed c settled_height head last_synchronous =
    let num = last_committed_trie_db_height head (commit_interval c) in
    if leb head last_synchronous
    then last_synchronous
    else if c.archival
    then head
    else if leb num last_synchronous
    then last_synchronous
    else settled_height num
