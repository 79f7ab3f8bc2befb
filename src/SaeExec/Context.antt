-- ===== src/SaeExec/Context.antt =====
-- saexec/context.go: the headers that the EVM reads for BLOCKHASH, with the cache of the recent ones.
use strevm.Base.{
  ==_iff, ap, ◌∙◌, sym, Bool-cases, inr, inl, Option-cases, Option, some, none, ℕ, ◌≡◌, ◌==◌,
  if◌then◌else◌, refl,
}
use strevm.Hook.{Header}

-- `GetHeader`; the cache has headers with their hashes, by number.
pub get_header : (ℕ → Option (Header × ℕ)) → (ℕ → ℕ → Option Header) → ℕ → ℕ → Option Header
get_header recent headers h n = elim (recent n) [
  | none ↦ headers h n
  | some (header, its_hash) ↦ if its_hash == h then some header else headers h n
]

-- If what is cached is what the source of the headers has, the cache does not change the result.
pub get_header-cached :
    (recent : ℕ → Option (Header × ℕ)) (headers : ℕ → ℕ → Option Header)
    → ((n its_hash : ℕ) (header : Header)
        → recent n ≡ some (header, its_hash)
        → headers its_hash n ≡ some header)
    → (h n : ℕ) → get_header recent headers h n ≡ headers h n
unfolding get_header
get_header-cached recent headers coherent h n = elim (Option-cases (recent n)) [
  | inl missing ↦ rw (missing, get_header) refl
  | inr ((header, its_hash), found) ↦
      rw (found, get_header)
        (elim (Bool-cases (its_hash == h)) [
          | inl same ↦ rw same (
              sym (coherent n its_hash header found)
              ∙ ap (λ x. headers x n) ((==_iff its_hash h).0 same))
          | inr other ↦ rw other refl
        ])
]
