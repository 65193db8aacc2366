-- ===== src/Levies/Requests.antt =====
-- The branches of `issue` in src/modules/financials/levies.service.ts, and its repetition.
use waslproperty_backend.Prelude.{
  ℕ, ◌≡◌, refl, ◌∙◌, false, ◌&&◌, Option, none, some, List, arith, find, ◌==◌,
}
use waslproperty_backend.Prelude.Result.{ok, no_record}
use waslproperty_backend.LevyAllocation.{Decimal}
use waslproperty_backend.Store.{
  Db, Property, Configuration, Fund, Installment, installment_pending, installment_issued,
  installment_reversed, InstallmentStatus, LevySchedule,
}
use waslproperty_backend.Store.Money.{Numeric}
use waslproperty_backend.Store.Tx.{throw_if, or_throw, bind-eq-ok, throw_if-eq-ok, or_throw-eq-ok}
use waslproperty_backend.Store.Rows.{
  get_owned_property, get_configuration, get_owned_property-same, get_configuration-same,
}
use waslproperty_backend.Levies.{find_owned_schedule, get_owned_schedule}
use waslproperty_backend.Levies.Split.{LotRow}
use waslproperty_backend.Levies.Issue.{is_unissuable, find_target, issue_target, issue}
use waslproperty_backend.Levies.Issued.{Struck, issue_pending-Struck}
use waslproperty_backend.Levies.Tables.{get_owned_schedule-eq-ok}

-- The rows that a request about a property looks up first.
pub record Setup (org prop : ℕ) (cf : Configuration) (s : Db) : Type 0 where
  pub owner : Property
  pub owned :
      find (λ (x : Property). x.id == prop && x.organisation_id == org) s.properties ≡ some owner
  pub configured : find (λ (x : Configuration). x.property_id == prop) s.configurations ≡ some cf

get_owned_property-eq-ok :
    (org prop : ℕ) (s : Db) {p : Property} {t : Db}
    → get_owned_property org prop s ≡ ok (p, t)
    → find (λ (x : Property). x.id == prop && x.organisation_id == org) s.properties ≡ some p
unfolding get_owned_property
get_owned_property-eq-ok org prop s h = ground arith

get_configuration-eq-ok :
    (prop : ℕ) (s : Db) {c : Configuration} {t : Db}
    → get_configuration prop s ≡ ok (c, t)
    → find (λ (x : Configuration). x.property_id == prop) s.configurations ≡ some c
unfolding get_configuration
get_configuration-eq-ok prop s h = ground arith

module _ (dec : Decimal) (num : Numeric) (today org actor prop : ℕ) where
  -- Either nothing was left to do, or a pending instalment was struck.
  pub data Branch (cf : Configuration) (l : LevySchedule) (asked : Option ℕ) (s : Db)
      (r : LevySchedule × Option (List LotRow)) (s' : Db) : Type 0 where
    none_left :
        asked ≡ none
        → find_target none l.installments ≡ none
        → s' ≡ s
        → r ≡ (l, none)
        → Branch cf l asked s r s'
    repeated_request :
        (i : Installment)
        → find_target asked l.installments ≡ some i
        → i.status ≡ installment_issued
        → s' ≡ s
        → r ≡ (l, none)
        → Branch cf l asked s r s'
    struck :
        (i : Installment)
        → find_target asked l.installments ≡ some i
        → i.status ≡ installment_pending
        → Struck dec num today org actor prop cf l i s r s'
        → Branch cf l asked s r s'

  pub record Request (schedule_id : ℕ) (asked : Option ℕ) (s : Db)
      (r : LevySchedule × Option (List LotRow)) (s' : Db) : Type 0 where
    pub cf : Configuration
    pub setup : Setup org prop cf s
    pub schedule : LevySchedule
    pub found : find_owned_schedule org prop schedule_id s.schedules ≡ some schedule
    pub issuable : is_unissuable schedule.status ≡ false
    pub fund : Fund
    pub funded : find (λ (f : Fund). f.id == schedule.financial_fund_id) s.funds ≡ some fund
    pub branch : Branch cf schedule asked s r s'

  issue_target-Branch :
      (cf : Configuration) (l : LevySchedule) (asked : Option ℕ) (target : Option Installment)
      (s s' : Db) (r : LevySchedule × Option (List LotRow))
      → find_target asked l.installments ≡ target
      → issue_target dec num today org actor prop cf l asked target s ≡ ok (r, s')
      → Branch cf l asked s r s'
  unfolding issue_target
  issue_target-Branch cf l (some _) none s s' r t h = cc
  issue_target-Branch cf l none none s s' r t h = none_left refl t (ground arith) (ground arith)
  issue_target-Branch cf l asked (some i) s s' r t h = go i.status refl
    where
      go : (st : InstallmentStatus) → i.status ≡ st → Branch cf l asked s r s'
      go installment_issued e = repeated_request i t e (ground (arith, e)) (ground (arith, e))
      go installment_reversed e = absurd (ground (arith, e))
      go installment_pending e =
          struck i t e
            (issue_pending-Struck dec num today org actor prop cf l i s s' r (ground (arith, e)))

  pub issue-Request :
      (schedule_id : ℕ) (asked : Option ℕ) (s s' : Db) (r : LevySchedule × Option (List LotRow))
      → issue dec num today org actor prop schedule_id asked s ≡ ok (r, s')
      → Request schedule_id asked s r s'
  unfolding issue
  issue-Request schedule_id asked s s' r h =
      let (p, t0, a, h0) = bind-eq-ok (get_owned_property org prop) _ s h in
      let (cf, t1, b, h1) = bind-eq-ok (get_configuration prop) _ t0 h0 in
      let (l, t2, c, h2) = bind-eq-ok (get_owned_schedule org prop schedule_id) _ t1 h1 in
      let (_, t3, d, h3) = bind-eq-ok (throw_if (is_unissuable l.status) _) _ t2 h2 in
      let row = find (λ (f : Fund). f.id == l.financial_fund_id) t3.funds in
      let (f, t4, g, h4) = bind-eq-ok (or_throw row no_record) _ t3 h3 in
      let same0 = get_owned_property-same org prop s a in
      let same1 : t1 ≡ s = get_configuration-same prop t0 b ∙ same0 in
      let (q, found) = get_owned_schedule-eq-ok org prop schedule_id t1 c in
      let (issuable, q3) = throw_if-eq-ok (is_unissuable l.status) _ t2 d in
      let (some_fund, q5) = or_throw-eq-ok row no_record t3 g in
      let same3 : t3 ≡ s = q3 ∙ q ∙ same1 in
      let same4 : t4 ≡ s = q5 ∙ same3 in
      record {
        cf = cf;
        setup = record {
          owner = p;
          owned = get_owned_property-eq-ok org prop s a;
          configured = rw same0 at (get_configuration-eq-ok prop t0 b);
        };
        schedule = l;
        found = rw same1 at found;
        issuable = issuable;
        fund = f;
        funded = rw same3 at some_fund;
        branch =
            issue_target-Branch cf l asked (find_target asked l.installments) s s' r refl
              (rw same4 at h4);
      }
