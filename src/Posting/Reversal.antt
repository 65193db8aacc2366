-- ===== src/Posting/Reversal.antt =====
-- What a reversal of src/modules/financials/ledger-posting.service.ts has checked and written.
use waslproperty_backend.Prelude.{
  ℕ, ◌<◌, ◌≡◌, refl, ap, inl, inr, Bool, Option, none, some, List, [], ◌∷◌, arith, find, All,
  Option-cases, Bool-cases, ◌==◌,
}
use waslproperty_backend.Prelude.Result.{ok, Result-cases}
use waslproperty_backend.Store.{Db, Configuration, reversal, Journal}
use waslproperty_backend.Store.Money.{Numeric}
use waslproperty_backend.Store.Rows.{get_configuration, record_activity}
use waslproperty_backend.Posting.{
  PostCommand, or_default, source_code, find_by_key, post_in_transaction,
}
use waslproperty_backend.Posting.Reverse.{
  update_journal, linking, reversal_command, find_owned_journal, find_reversal,
  reverse_in_transaction,
}
use waslproperty_backend.Posting.Ledger.{Ledger, source_code-injective}
use waslproperty_backend.Posting.Posted.{Posted, repeated, written, post_in_transaction-Outcome}

-- A journal is of the source type REVERSAL exactly if it is linked to the journal that its source id
-- names.
pub record IsLinked (j : Journal) : Type 0 where
  pub link : j.source_type ≡ reversal → j.reversal_of ≡ some j.source_id
  pub source :
      (id : ℕ)
      → j.reversal_of ≡ some id
      → (j.source_type ≡ reversal) × (j.source_id ≡ id) × (j.source_event_version ≡ 1)

abbrev pub Linked : Db → Type 0
Linked s = All IsLinked s.journals

update_journal_absent :
    (id : ℕ) (f : Journal → Journal) (js : List Journal)
    → All (λ j. j.id < id) js
    → update_journal id f js ≡ js
unfolding update_journal
update_journal_absent id f [] h = refl
update_journal_absent id f (j ∷ js) h = ground (arith, update_journal_absent id f js h.1)

pub record Reversed (num : Numeric) (org actor prop journal_id date : ℕ) (s : Db) (j : Journal)
    (s' : Db) : Type 0 where
  pub original : Journal
  pub found : find_owned_journal org prop journal_id s.journals ≡ some original
  pub first : find_reversal original.id s.journals ≡ none
  pub cf : Configuration
  pub row : Journal
  pub posted : Db
  pub posting : Posted num org actor prop cf (reversal_command date original) s row posted
  pub row_eq : j ≡ linking original.id row
  pub state_eq : s' ≡ record posted { journals = j ∷ s.journals; activities = s'.activities }

-- Linking changes the new row only.
update_journal-Posted :
    (num : Numeric) (org actor prop : ℕ) (cf : Configuration) (c : PostCommand) (s t : Db)
    {row : Journal} (f : Journal → Journal)
    → Ledger s
    → Posted num org actor prop cf c s row t
    → update_journal row.id f t.journals ≡ f row ∷ s.journals
unfolding update_journal
update_journal-Posted num org actor prop cf c s t {row} f l p =
    let same : row.id ≡ s.next_id = ap (λ (x : Journal). x.id) p.row_eq in
    let older = update_journal_absent s.next_id f s.journals l.fresh in
    rw p.state_eq (ground (arith, same, older))

-- With no linked reversal there is no journal with the reversal's key.
pub no_key_of_first :
    (prop id : ℕ) (js : List Journal)
    → All IsLinked js
    → find_reversal id js ≡ none
    → find_by_key prop reversal id 1 js ≡ none
unfolding find_reversal find_by_key
no_key_of_first prop id [] l h = refl
no_key_of_first prop id (j ∷ js) l h =
    let rest = no_key_of_first prop id js l.1 (ground arith) in
    elim (Bool-cases (source_code j.source_type == source_code reversal)) [
      | inl e ↦
          let same = l.0.link (source_code-injective j.source_type reversal (ground arith)) in
          ground (arith, rest, same)
      | inr e ↦ ground (arith, rest)
    ]

pub reverse_in_transaction-Reversed :
    (num : Numeric) (org actor prop journal_id : ℕ) (date : Option ℕ) (today : ℕ) (allow : Bool)
    (s s' : Db) {j : Journal}
    → Ledger s
    → Linked s
    → reverse_in_transaction num org actor prop journal_id date today allow s ≡ ok (j, s')
    → Reversed num org actor prop journal_id (or_default date today) s j s'
unfolding reverse_in_transaction get_configuration record_activity
reverse_in_transaction-Reversed num org actor prop jid date today allow s s' {j} l k h =
    let day = or_default date today in
    elim (Option-cases (find (λ (x : Configuration). x.property_id == prop) s.configurations)) [
      | inl e ↦ absurd (ground (arith, e))
      | inr (c, e) ↦ elim (Option-cases (find_owned_journal org prop jid s.journals)) [
        | inl f ↦ absurd (ground (arith, e, f))
        | inr (original, f) ↦ elim (Option-cases (find_reversal original.id s.journals)) [
          | inr (r, g) ↦ absurd (ground (arith, e, f, g))
          | inl g ↦
              elim (Result-cases
                (post_in_transaction num org actor prop (reversal_command day original) s)) [
                  | inl (x, q) ↦ absurd (ground (arith, e, f, g, q))
                  | inr ((row, t), q) ↦
                      elim (post_in_transaction-Outcome num org actor prop
                        (reversal_command day original) s l.keyed q) [
                          | repeated y same ↦
                              absurd (cc (y, no_key_of_first prop original.id s.journals k g))
                          | written cf y p ↦ record {
                            original = original;
                            found = f;
                            first = g;
                            cf = cf;
                            row = row;
                            posted = t;
                            posting = p;
                            row_eq = ground (arith, e, f, g, q);
                            state_eq = ground (
                              arith,
                              e,
                              f,
                              g,
                              q,
                              update_journal-Posted num org actor prop cf
                                  (reversal_command day original) s t (linking original.id) l p,
                            );
                          }
                        ]
                ]
        ]
      ]
    ]
