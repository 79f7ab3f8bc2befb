-- ===== src/Sae/Access/Found.antt =====
-- What GetBlock of sae/blocks.go returns where reading a block from the database fails.
use strevm.Blocks.{height, Memory}
use strevm.Hook.{Points}
use strevm.Blocks.Execution.{Database}
use strevm.Base.{
  ap, ◌∙◌, lt→ltb, false, ◌∙◌, database_not_found, Outcome, Option, ℕ, ◌≡◌, refl, ok, err, some,
  none, ◌<◌, ◌>>=◌,
}
use strevm.Blocks.Access.{Chain, from_hash}
use strevm.Sae.Access.{get_block, Loaded, settled_block_from_db, found_or_nil, EthBlock}

module _ (db : Database) (hooks : Points) (read_block : db.Disk → ℕ → ℕ → Option EthBlock)
    (last_synchronous excess_after : ℕ) (c : Chain) (d : db.Disk) (m : Memory) (fresh id : ℕ) where
  abbrev pub from_db : ℕ → Outcome (Loaded db hooks read_block last_synchronous excess_after)
  from_db num =
      settled_block_from_db db hooks read_block last_synchronous excess_after d m fresh id num

  abbrev pub got : Outcome (Option (Loaded db hooks read_block last_synchronous excess_after))
  got = get_block db hooks read_block last_synchronous excess_after c d m fresh id

  abbrev looked_up : Outcome (Option (Loaded db hooks read_block last_synchronous excess_after))
  looked_up =
      from_hash c
        (λ hash num.
          settled_block_from_db db hooks read_block last_synchronous excess_after d m fresh hash num
          >>= λ loaded. ok (some loaded))
        (λ b. some (d, m, b)) id false

  looks_up : got ≡ found_or_nil db hooks read_block last_synchronous excess_after looked_up
  unfolding get_block
  looks_up = refl

  looked_up_known :
      (n : ℕ)
      → c.consensus_critical_block id ≡ none
      → c.read_header_number id ≡ some n
      → looked_up ≡ (from_db n >>= λ loaded. ok (some loaded))
  unfolding from_hash
  looked_up_known n settled known = rw (settled, from_hash) (rw known refl)

  -- For the hash of a block that is known to the database and not critical for consensus, but above the
  -- last settled one, GetBlock returns a nil block and no error.
  pub get_block-drops_error :
      (n s : ℕ)
      → c.consensus_critical_block id ≡ none
      → c.read_header_number id ≡ some n
      → m.last_settled ≡ some s
      → height m s < n
      → (from_db n ≡ err database_not_found) × (got ≡ ok none)
  unfolding found_or_nil settled_block_from_db
  get_block-drops_error n s settled known last above =
      let refused : from_db n ≡ err database_not_found =
        rw last (rw (lt→ltb (height m s) n above) refl) in
      (
        refused,
        looks_up
            ∙ ap (found_or_nil db hooks read_block last_synchronous excess_after) (
                looked_up_known n settled known
                ∙ ap (λ r. r >>= λ loaded. ok (some loaded)) refused),
      )
