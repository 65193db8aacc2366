-- ===== src/Posting/Reverse.antt =====
-- `reverse`, `reverseWithinTransaction` and their core in src/modules/financials/ledger-posting.service.ts.
use waslproperty_backend.Prelude.{
  ℕ, ◌*◌, Bool, true, false, ◌&&◌, not, Option, none, some, List, [], ◌∷◌, map, ◌==◌, is_key,
  if◌then◌else◌, find,
}
use waslproperty_backend.Prelude.Result.{
  not_found, conflict, journal, subledger_journal, already_reversed,
}
use waslproperty_backend.Store.{reversal, JournalLine, Journal, journal_reversed}
use waslproperty_backend.Store.Money.{per_cent, Numeric}
use waslproperty_backend.Store.Tx.{Tx, pure, throw, gets, or_throw, throw_if, modify, ◌>>=◌, ◌>>◌}
use waslproperty_backend.Store.Rows.{get_owned_property, get_configuration, record_activity}
use waslproperty_backend.Posting.{
  LineInput, PostCommand, or_default, is_subledger, post_in_transaction,
}

-- What was debited is credited, and the other way round.
abbrev pub swapped : JournalLine → LineInput
swapped l = record {
  account_id = l.account_id;
  financial_fund_id = l.financial_fund_id;
  debit = l.credit * per_cent;
  credit = l.debit * per_cent;
}

-- `journalEntry.update({ where: { id } })`
unfoldable pub update_journal : ℕ → (Journal → Journal) → List Journal → List Journal
update_journal id f [] = []
update_journal id f (j ∷ js) =
    let rest = update_journal id f js in if j.id == id then f j ∷ rest else j ∷ rest

abbrev pub linking : ℕ → Journal → Journal
linking original_id j = record j { reversal_of = some original_id }

-- The command that a reversal posts.
abbrev pub reversal_command : ℕ → Journal → PostCommand
reversal_command date original = record {
  effective_date = date;
  currency_code = some original.currency_code;
  source_type = reversal;
  source_id = original.id;
  source_event_version = some 1;
  lines = map swapped original.lines;
  allow_cross_fund = true;
}

unfoldable pub find_owned_journal : ℕ → ℕ → ℕ → List Journal → Option Journal
find_owned_journal org prop id =
    find (λ j. j.id == id && j.organisation_id == org && j.property_id == prop)

unfoldable pub find_reversal : ℕ → List Journal → Option Journal
find_reversal id = find (λ j. is_key j.reversal_of id)

module _ (num : Numeric) where
  -- `reverseInTransaction`; `today` is the date of the clock.
  unfoldable pub reverse_in_transaction : ℕ → ℕ → ℕ → ℕ → Option ℕ → ℕ → Bool → Tx Journal
  reverse_in_transaction org actor prop journal_id date today allow_levy_sourced = do
    get_configuration prop
    row ← gets (λ s. find_owned_journal org prop journal_id s.journals)
    original ← or_throw row (not_found journal)
    throw_if (not allow_levy_sourced && is_subledger original.source_type)
        (conflict subledger_journal)
    earlier ← gets (λ s. find_reversal original.id s.journals)
    elim earlier [ some _ ↦ throw (conflict already_reversed) | none ↦ pure tt ]
    j ← post_in_transaction num org actor prop (reversal_command (or_default date today) original)
    modify (λ s. record s { journals = update_journal j.id (linking original.id) s.journals })
    record_activity org prop actor journal_reversed original.id
    pure (linking original.id j)

  unfoldable pub reverse : ℕ → ℕ → ℕ → ℕ → Option ℕ → ℕ → Tx Journal
  reverse org actor prop journal_id date today = do
    get_owned_property org prop
    reverse_in_transaction org actor prop journal_id date today false

  unfoldable pub reverse_within_transaction : ℕ → ℕ → ℕ → ℕ → Option ℕ → ℕ → Tx Journal
  reverse_within_transaction org actor prop journal_id date today =
      reverse_in_transaction org actor prop journal_id date today true
