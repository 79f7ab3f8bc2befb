-- ===== src/SaeDb/Commits.antt =====
-- The heights of saedb at which state is committed.
use native.Mathlib.Nat.{mod-lt, mod-lt, mul-le-mul_left, mul-mod_right, div-add-mod}
use strevm.Base.{
  ◌+◌, suc, dec_le, ==_iff, ◌∙◌, ap, ◌/◌, ◌*◌, ◌%◌, ◌-◌, true, ◌≡◌, ◌≤◌, arith, ℕ, ◌<◌,
}
use strevm.SaeDb.{Config, should_commit_trie_db, last_committed_trie_db_height, commit_interval}

pub commit_interval_positive : (c : Config) → 0 < commit_interval c
unfolding commit_interval
commit_interval_positive c = ground arith

-- `LastCommittedTrieDBHeight` is the greatest height, no higher than the given one, at which
-- `ShouldCommitTrieDB` holds.
pub last_committed_lem :
    (n interval : ℕ)
    → 0 < interval
    → (last_committed_trie_db_height n interval ≤ n)
      × (should_commit_trie_db (last_committed_trie_db_height n interval) interval ≡ true)
      × ((k : ℕ)
          → k ≤ n
          → should_commit_trie_db k interval ≡ true
          → k ≤ last_committed_trie_db_height n interval)
unfolding should_commit_trie_db last_committed_trie_db_height
last_committed_lem n interval pos =
    let last : n - n % interval ≡ interval * (n / interval) =
      omega (arith, div-add-mod n interval) in
    let whole : (n - n % interval) % interval ≡ 0 =
      ap (λ (x : ℕ). x % interval) last ∙ mul-mod_right interval (n / interval) in
    (
      omega arith,
      (==_iff _ 0).1 whole,
      λ k le commits.
          let multiple : k % interval ≡ 0 = (==_iff (k % interval) 0).0 commits in
          elim (dec_le (k / interval) (n / interval)) [
            | yes fewer ↦
                omega
                  (arith, mul-le-mul_left interval fewer, div-add-mod k interval, multiple, last)
            | no more ↦
                let above : suc (n / interval) ≤ k / interval = omega (arith, more) in
                let next : interval * suc (n / interval) ≡ interval * (n / interval) + interval =
                  omega arith in
                omega (
                  arith,
                  mul-le-mul_left interval above,
                  div-add-mod k interval,
                  div-add-mod n interval,
                  mod-lt n pos,
                  multiple,
                  le,
                  next,
                )
          ],
    )
