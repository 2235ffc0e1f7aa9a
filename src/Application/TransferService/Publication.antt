-- ===== src/Application/TransferService/Publication.antt =====
-- Step 10: what is published, and that the three aggregates have nothing left to publish.
use banking_transaction_syst.Prelude.{ℕ, ◌≡◌, ◌≢◌, refl, ap, sym, ◌∙◌, List, [], ◌∷◌, ◌++◌}
use banking_transaction_syst.Prelude.Lists.{append-nil}
use banking_transaction_syst.Prelude.Dict.{update, update_ne}
use banking_transaction_syst.Domain.Exceptions.{Result, ok}
use banking_transaction_syst.Domain.Events.{DomainEvent}
use banking_transaction_syst.Domain.Base.{collect_events}
use banking_transaction_syst.Domain.Account.{Account}
use banking_transaction_syst.Domain.Transaction.{Transaction}
use banking_transaction_syst.Application.Runtime.{World}
use banking_transaction_syst.Application.TransferService.{
  Parties, collect_account, collect_transaction, publish_any, publish_many, publish_events,
}

-- An aggregate after `collect_events`.
abbrev pub cleared : Account → Account
cleared a = record a { root = record a.root { domain_events = [] } }

abbrev pub cleared_tx : Transaction → Transaction
cleared_tx t = record t { root = record t.root { domain_events = [] } }

module _ {S L : Type 0} where
  publish_any_lem :
      (es : List DomainEvent) (w : World S L)
      → publish_any es w ≡ (ok tt, record w { published = w.published ++ es })
  unfolding publish_any publish_many
  publish_any_lem [] w =
      ap (λ (es : List DomainEvent). (ok tt, record w { published = es }))
        (sym (append-nil w.published))
  publish_any_lem (e ∷ es) w = refl

  publish_any-ok : (es : List DomainEvent) (w : World S L) → (publish_any es w).0 ≡ ok tt
  unfolding publish_any
  publish_any-ok [] w = refl
  publish_any-ok (e ∷ es) w = refl

  -- Step 10 never raises.
  pub publish_events-ok : (p : Parties) (w : World S L) → (publish_events p w).0 ≡ ok tt
  unfolding publish_events
  publish_events-ok p w = publish_any-ok _ _

  collect_account_lem :
      (ref : ℕ) (a : Account) (w : World S L)
      → w.accounts ref ≡ a
      → collect_account ref w
        ≡ (a.domain_events, record w { accounts = update w.accounts ref (cleared a) })
  unfolding collect_account collect_events
  collect_account_lem ref a w h =
      ap
        (λ (x : Account).
          (x.domain_events, record w { accounts = update w.accounts ref (cleared x) }))
        h

  collect_transaction_lem :
      (ref : ℕ) (t : Transaction) (w : World S L)
      → w.transactions ref ≡ t
      → collect_transaction ref w
        ≡ (t.domain_events, record w { transactions = update w.transactions ref (cleared_tx t) })
  unfolding collect_transaction collect_events
  collect_transaction_lem ref t w h =
      ap
        (λ (x : Transaction).
          (x.domain_events, record w { transactions = update w.transactions ref (cleared_tx x) }))
        h

  module _ (p : Parties) (w : World S L) (a b : Account) (t : Transaction)
      (other : p.sender ≢ p.receiver) (sender : w.accounts p.sender ≡ a)
      (receiver : w.accounts p.receiver ≡ b) (tx : w.transactions p.tx ≡ t) where
    abbrev pub published_events : List DomainEvent
    published_events = a.domain_events ++ (b.domain_events ++ t.domain_events)

    abbrev w1 : World S L
    w1 = record w { accounts = update w.accounts p.sender (cleared a) }

    abbrev w2 : World S L
    w2 = record w1 { accounts = update w1.accounts p.receiver (cleared b) }

    abbrev pub w3 : World S L
    w3 = record w2 { transactions = update w2.transactions p.tx (cleared_tx t) }

    abbrev Collected : Type 0
    Collected = List DomainEvent × World S L

    abbrev finish : List DomainEvent → List DomainEvent → Collected → Result (Unit {0}) × World S L
    finish e1 e2 q = publish_any (e1 ++ (e2 ++ q.0)) q.1

    pub publish_events_lem :
        publish_events p w ≡ (ok tt, record w3 { published = w.published ++ published_events })
    unfolding publish_events
    publish_events_lem =
        ap
          (λ (q : Collected).
            let q2 = collect_account p.receiver q.1 in
            finish q.0 q2.0 (collect_transaction p.tx q2.1))
          (collect_account_lem p.sender a w sender)
        ∙ (ap (λ (q : Collected). finish a.domain_events q.0 (collect_transaction p.tx q.1))
              (collect_account_lem p.receiver b w1
                (update_ne w.accounts p.sender (cleared a) p.receiver other ∙ receiver))
            ∙ (ap (finish a.domain_events b.domain_events) (collect_transaction_lem p.tx t w2 tx)
                ∙ publish_any_lem published_events w3))
