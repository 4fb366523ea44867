-- ===== src/Repositories/Ledger.antt =====
-- The queries of ReceiptRepository (asyncgate/db/repositories.py), and `mark_delivered`.
use async_gate.Prelude.{
  ℕ, ◌+◌, ◌*◌, min, Bool, true, false, not, ◌&&◌, Option, none, some, List, [], ◌∷◌, ◌++◌, String,
  ◌==◌, ltb, leb, if◌then◌else◌, is_some, text_in, length, take, last?, head?, first, any, select,
  order_by, update_where, count,
}
use async_gate.Models.Enums.{
  ReceiptType, PrincipalKind, TaskStatus, kind_eq, type_eq, type_in, status_eq,
}
use async_gate.Models.Records.{Principal, Receipt, Task}
use async_gate.Models.Termination.{terminal_receipt_types, get_obligation_types}
use async_gate.Principals.{principal_id_variants}
use async_gate.Store.{Store, index_error, M, ◌>>=◌, ◌>>◌, pure, raise, gets, put_db}
use async_gate.Repositories.Receipts.{is_receipt}

abbrev pub older_first : Receipt → Receipt → Bool
older_first x y = leb x.created_at y.created_at

abbrev pub newer_first : Receipt → Receipt → Bool
newer_first x y = leb y.created_at x.created_at

abbrev pub is_addressed : ℕ → PrincipalKind → String → Receipt → Bool
is_addressed tenant_id to_kind to_id r =
    r.tenant_id == tenant_id
    && kind_eq r.to_.kind to_kind
    && text_in r.to_.id (principal_id_variants to_id)

abbrev same_uuid : Option ℕ → ℕ → Bool
same_uuid none b = false
same_uuid (some a) b = a == b

abbrev pub mentions : ℕ → Receipt → Bool
mentions receipt_id r = any (λ p. p == receipt_id) r.parents

unfoldable pub get_by_id : ℕ → ℕ → Store → Option Receipt
unfolding first
get_by_id tenant_id receipt_id s = first (is_receipt tenant_id receipt_id) s.db.receipts

-- Behind the cursor: created after the receipt that it names, if there is one.
abbrev created_after : Option Receipt → Receipt → Bool
created_after none r = true
created_after (some c) r = ltb c.created_at r.created_at

abbrev pub past_cursor : ℕ → Option ℕ → Store → Receipt → Bool
past_cursor tenant_id none s r = true
past_cursor tenant_id (some since) s r = created_after (get_by_id tenant_id since s) r

abbrev pub last_id : List Receipt → Option ℕ
last_id rs = elim (last? rs) [ none ↦ none | some r ↦ some r.receipt_id ]

-- A page of the rows, with the cursor of the next one if there are more.
unfoldable pub page : ℕ → List Receipt → List Receipt × Option ℕ
page limit rows =
    let got = take (limit + 1) rows in
    if ltb limit (length got) then (take limit got, last_id (take limit got)) else (got, none)

unfoldable pub list : ℕ → PrincipalKind → String → Option ℕ → ℕ → Store → List Receipt × Option ℕ
unfolding page select order_by principal_id_variants get_by_id
list tenant_id to_kind to_id since_receipt_id limit s = page limit (
    order_by older_first (
      select
        (λ r. is_addressed tenant_id to_kind to_id r && past_cursor tenant_id since_receipt_id s r)
        s.db.receipts))

pub record ReceiptFilter : Type 0 where
  pub task_id : Option ℕ
  pub lease_id : Option ℕ
  pub receipt_type : Option ReceiptType
  pub task_status : Option TaskStatus

abbrev passes_uuid : Option ℕ → Option ℕ → Bool
passes_uuid none actual = true
passes_uuid (some wanted) actual = same_uuid actual wanted

abbrev passes_type : Option ReceiptType → Receipt → Bool
passes_type none r = true
passes_type (some t) r = type_eq r.receipt_type t

-- The join with the tasks.
abbrev passes_status : Option TaskStatus → List Task → Receipt → Bool
passes_status none ts r = true
passes_status (some st) ts r =
    any (λ t. t.tenant_id == r.tenant_id && same_uuid r.task_id t.task_id && status_eq t.status st)
      ts

unfoldable pub list_filtered : ℕ → ReceiptFilter → Option ℕ → ℕ → Store → List Receipt × Option ℕ
unfolding page select order_by any get_by_id
list_filtered tenant_id f since_receipt_id limit s = page limit (
    order_by older_first (
      select
        (λ r.
          r.tenant_id == tenant_id
          && passes_uuid f.task_id r.task_id
          && passes_uuid f.lease_id r.lease_id
          && passes_type f.receipt_type r
          && passes_status f.task_status s.db.tasks r
          && past_cursor tenant_id since_receipt_id s r)
        s.db.receipts))

abbrev pub is_undelivered : Receipt → Bool
is_undelivered r = not (is_some r.delivered_at)

abbrev delivers : ℕ → List ℕ → Receipt → Bool
delivers tenant_id receipt_ids r =
    r.tenant_id == tenant_id && any (λ i. i == r.receipt_id) receipt_ids && is_undelivered r

unfoldable pub mark_delivered : ℕ → List ℕ → M ℕ
unfolding count update_where any
mark_delivered tenant_id [] = pure 0
mark_delivered tenant_id (i ∷ is) = do
  now ← gets (λ s. s.clock)
  changed ← gets (λ s. count (delivers tenant_id (i ∷ is)) s.db.receipts)
  put_db λ db. record db {
    receipts =
        update_where (delivers tenant_id (i ∷ is)) (λ r. record r { delivered_at = some now })
          db.receipts;
  }
  pure changed

abbrev same_owner : Option Principal → Receipt → Bool
same_owner none r = true
same_owner (some p) r = kind_eq r.to_.kind p.kind && text_in r.to_.id (principal_id_variants p.id)

abbrev pub assigns : ℕ → ℕ → Option Principal → Receipt → Bool
assigns tenant_id task_id owner r =
    r.tenant_id == tenant_id
    && same_uuid r.task_id task_id
    && type_eq r.receipt_type ReceiptType.task_assigned
    && same_owner owner r

unfoldable pub get_task_obligation : ℕ → ℕ → Option Principal → Store → Option Receipt
unfolding select order_by any principal_id_variants
get_task_obligation tenant_id task_id owner s =
    head? (order_by newer_first (select (assigns tenant_id task_id owner) s.db.receipts))

unfoldable pub get_by_parent : ℕ → ℕ → ℕ → Store → List Receipt
unfolding select order_by any
get_by_parent tenant_id parent_receipt_id limit s = take limit (
    order_by older_first
      (select (λ r. r.tenant_id == tenant_id && mentions parent_receipt_id r) s.db.receipts))

-- A terminal receipt of the tenant that names the obligation among its parents.
abbrev pub terminates : ℕ → ℕ → Receipt → Bool
terminates tenant_id parent_receipt_id r =
    r.tenant_id == tenant_id
    && mentions parent_receipt_id r
    && type_in r.receipt_type terminal_receipt_types

unfoldable pub has_terminator : ℕ → ℕ → Store → Bool
unfolding any
has_terminator tenant_id parent_receipt_id s =
    any (terminates tenant_id parent_receipt_id) s.db.receipts

unfoldable pub get_terminators : ℕ → ℕ → ℕ → Store → List Receipt
unfolding select order_by any
get_terminators tenant_id parent_receipt_id limit s =
    take limit
      (order_by older_first (select (terminates tenant_id parent_receipt_id) s.db.receipts))

unfoldable pub get_latest_terminator : ℕ → ℕ → Store → Option Receipt
unfolding select order_by any
get_latest_terminator tenant_id parent_receipt_id s =
    head? (order_by newer_first (select (terminates tenant_id parent_receipt_id) s.db.receipts))

-- The rows that may be open obligations of the principal, the older first.
unfoldable pub candidates : ℕ → PrincipalKind → String → Option ℕ → Store → List Receipt
unfolding select order_by any principal_id_variants get_by_id get_obligation_types
candidates tenant_id to_kind to_id since_receipt_id s = order_by older_first (
    select
      (λ r.
        is_addressed tenant_id to_kind to_id r
        && type_in r.receipt_type get_obligation_types
        && past_cursor tenant_id since_receipt_id s r)
      s.db.receipts)

-- The loop over the candidates: it stops when `limit` open ones are at hand.
unfoldable pub collect_open : (Receipt → Bool) → ℕ → List Receipt → List Receipt → List Receipt
collect_open terminated limit acc [] = acc
collect_open terminated limit acc (r ∷ rs) =
    let acc' = if terminated r then acc else acc ++ r ∷ [] in
    let rest = collect_open terminated limit acc' rs in
    if leb limit (length acc') then acc' else rest

abbrev pub cursor_or_raise : Option ℕ → M (Option ℕ)
cursor_or_raise none = raise index_error
cursor_or_raise (some id) = pure (some id)

-- The next cursor; the last element of an empty list is an error.
abbrev pub next_cursor : ℕ → List Receipt → List Receipt → Bool → M (Option ℕ)
next_cursor limit open_ rows more =
    if leb limit (length open_)
    then cursor_or_raise (last_id open_)
    else pure (if more then last_id rows else none)

abbrev pub candidate_limit : ℕ → ℕ
candidate_limit limit = min (limit * 3) 1000

-- The result, where nothing was fetched and where something was.
abbrev pub open_page :
    ℕ → List Receipt → List Receipt → Bool → List Receipt → M (List Receipt × Option ℕ)
open_page limit open_ rows more [] = pure ([], none)
open_page limit open_ rows more (r ∷ rs) = do
  cursor ← next_cursor limit open_ rows more
  pure (take limit open_, cursor)

unfoldable pub list_open_obligations :
    ℕ → PrincipalKind → String → Option ℕ → ℕ → M (List Receipt × Option ℕ)
unfolding candidates collect_open has_terminator
list_open_obligations tenant_id to_kind to_id since_receipt_id limit = do
  fetched ←
      gets λ s.
        take (candidate_limit limit + 1) (candidates tenant_id to_kind to_id since_receipt_id s)
  let more = ltb (candidate_limit limit) (length fetched)
  let rows = take (candidate_limit limit) fetched
  open_ ← gets λ s. collect_open (λ r. has_terminator tenant_id r.receipt_id s) limit [] rows
  open_page limit open_ rows more fetched
