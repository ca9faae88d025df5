-- ===== src/Examples/ReportRuns.antt =====
-- The audit log, CSV texts and expiring subscriptions at small inputs.
use bianhao.Base.{
  set, str_eq, sort_by, All, ℕ, ◌≡◌, refl, true, String, none, some, List, [], ◌∷◌, ◌++◌, map,
  values, get, Map, IsKeyed,
}
use bianhao.Domain.{Currency, Order, OrderStatus, RefundStatus, Subscription}
use bianhao.Examples.Fixtures.{waiting}
use bianhao.Reports.{ReportFilter, matched_orders, matched_refunds, summary}
use bianhao.Reports.Sums.{SumsTo, rows_in, summary-SumsTo}
use bianhao.Storage.Orders.{OrderRepository}
use bianhao.Storage.Refunds.{RefundRepository}
use bianhao.Storage.Subscriptions.{list_active}
use bianhao.Money.{Text}
use bianhao.Audit.{AuditInput, AuditPage, AuditQuery, InMemoryAuditLog, query}
use bianhao.Audit.Bounded.{Reading, Refines, history_of, record_all, record_all-Refines}
use bianhao.Csv.{Value, cells_of, to_csv}
use bianhao.Csv.Parser.{parse}
use bianhao.Csv.Reading.{parse-to_csv, texts_of}
use bianhao.Expiry.{Desk, ExpiryDeps, deactivate_expired, send_expiry_reminders}
use bianhao.Expiry.Ending.{Ended, Over, deactivate_expired-Ends, stored}
use bianhao.Expiry.Reminding.{Once, reminded_ids, send_expiry_reminders-Once}

-- A log of two entries that is given three.
abbrev small_log : InMemoryAuditLog
small_log = record { max_entries = 2; entries = [] }

abbrev action_input : String → AuditInput
action_input action = record {
  action = action;
  actor = none;
  subject_id = none;
  metadata = none;
  at = none;
}

abbrev three_readings : List Reading
three_readings =
    ("a", 1, action_input "x") ∷ ("b", 2, action_input "y") ∷ ("c", 2, action_input "x") ∷ []

record_all-Refines_example :
    Refines ([] ++ history_of three_readings) (record_all three_readings small_log)
record_all-Refines_example = record_all-Refines three_readings [] small_log refl

abbrev no_filter : AuditQuery
no_filter = record {
  action = none;
  actor = none;
  subject_id = none;
  from = none;
  to = none;
  limit = none;
  offset = none;
}

newest_first :
    map (λ e. e.id) (AuditPage.items (query no_filter (record_all three_readings small_log)))
    ≡ "c" ∷ "b" ∷ []
unfolding query record_all sort_by
newest_first = refl

-- Every name is the one unit 65.
abbrev one_unit : String → Text
one_unit name = 65 ∷ []

-- A cell with a comma, a quote and a line break.
abbrev hard_row : Map Value
hard_row = ("a", Value.text (44 ∷ 34 ∷ 10 ∷ [])) ∷ []

parse-to_csv_example :
    parse (to_csv one_unit (hard_row ∷ []) ("a" ∷ "b" ∷ []))
    ≡ some (
        map one_unit ("a" ∷ "b" ∷ [])
        ∷ map (λ row. texts_of (cells_of ("a" ∷ "b" ∷ []) row)) (hard_row ∷ []))
parse-to_csv_example = parse-to_csv one_unit "a" ("b" ∷ []) (hard_row ∷ [])

-- A bare line break in a plain cell is no CSV.
bare_break : parse (65 ∷ 10 ∷ 65 ∷ 13 ∷ 10 ∷ []) ≡ none
unfolding parse
bare_break = refl

quoted :
    to_csv one_unit (hard_row ∷ []) ("a" ∷ [])
    ≡ 65 ∷ 13 ∷ 10 ∷ 34 ∷ 44 ∷ 34 ∷ 34 ∷ 10 ∷ 34 ∷ 13 ∷ 10 ∷ []
unfolding to_csv get str_eq
quoted = refl

abbrev monthly : String → ℕ → Subscription
monthly id expires_at = record {
  id = id;
  user_id = id;
  plan_id = "basic";
  starts_at = 0;
  expires_at = expires_at;
  traffic_gb = 100;
  device_limit = 3;
  active = true;
  order_ids = [];
  expiry_notified_at = none;
  created_at = 0;
  updated_at = 0;
}

-- At time 10: one subscription is over, one ends in 5, one much later.
abbrev three_subscriptions : Map Subscription
three_subscriptions =
    ("over", monthly "over" 7) ∷ ("soon", monthly "soon" 15) ∷ ("late", monthly "late" 99) ∷ []

abbrev expiry_deps : ExpiryDeps
expiry_deps = record { reminder_window_ms = 20; now = λ tick. 10; notify = λ tick event. true }

abbrev opening_desk : Desk
opening_desk = record {
  subscriptions = record { by_id = three_subscriptions; active_by_user = [] };
  notices = [];
  tick = 0;
}

three-IsKeyed : IsKeyed (λ s. s.id) three_subscriptions
unfolding get str_eq
three-IsKeyed = ((refl, (refl, (refl, tt))), (refl, (refl, (refl, tt))))

deactivate_expired-Ends_example :
    ((id : String)
      → Ended 10 three_subscriptions (stored ((deactivate_expired expiry_deps opening_desk).1)) id)
    × ((n : ℕ)
        → (deactivate_expired expiry_deps opening_desk).0 ≡ some n
        → All
            (Over 10 three_subscriptions (stored ((deactivate_expired expiry_deps opening_desk).1)))
            (list_active (Desk.subscriptions opening_desk)))
deactivate_expired-Ends_example = deactivate_expired-Ends expiry_deps opening_desk three-IsKeyed

one_ended : (deactivate_expired expiry_deps opening_desk).0 ≡ some 1
unfolding deactivate_expired get str_eq values
one_ended = refl

opening-Once : Once opening_desk
unfolding reminded_ids
opening-Once = (three-IsKeyed, tt, tt)

send_expiry_reminders-Once_example : Once ((send_expiry_reminders expiry_deps opening_desk).1)
send_expiry_reminders-Once_example =
    send_expiry_reminders-Once expiry_deps opening_desk opening-Once

-- A second pass sends nothing more.
reminded_once :
    map
      (λ e. e.subscription_id)
      (Desk.notices (
        (send_expiry_reminders expiry_deps ((send_expiry_reminders expiry_deps opening_desk).1)).1))
    ≡ "soon" ∷ []
unfolding send_expiry_reminders set str_eq values
reminded_once = refl

-- Two orders paid in CNY, one in USDT, and one that waits; half of the first is refunded.
abbrev paid_as : String → Currency → ℕ → Order
paid_as id currency amount = record waiting {
  id = id;
  currency = currency;
  amount = amount;
  status = OrderStatus.fulfilled;
  paid_at = some 5;
}

abbrev four_orders : OrderRepository
four_orders = record {
  by_id =
      ("a", paid_as "a" Currency.cny 1000)
      ∷ ("b", paid_as "b" Currency.usdt 700)
      ∷ ("c", waiting)
      ∷ ("d", paid_as "d" Currency.cny 250)
      ∷ [];
  by_out_trade_no = [];
  by_idem = [];
}

abbrev one_refund : RefundRepository
one_refund = record {
  by_id =
      (
        "r",
        record {
          id = "r";
          order_id = "a";
          out_refund_no = "n";
          amount = 500;
          currency = Currency.cny;
          reason = none;
          status = RefundStatus.success;
          provider_refund_id = none;
          raw_status = "";
          created_at = 6;
          updated_at = 6;
        },
      )
      ∷ [];
  by_out_refund_no = [];
}

abbrev no_report_filter : ReportFilter
no_report_filter = record {
  from = none;
  to = none;
  method = none;
  status = none;
  merchant_id = none;
}

summary-SumsTo_example :
    SumsTo Currency.cny
      (matched_orders no_report_filter four_orders)
      (matched_refunds (matched_orders no_report_filter four_orders) one_refund)
      (rows_in (summary no_report_filter four_orders one_refund))
summary-SumsTo_example = summary-SumsTo no_report_filter four_orders one_refund Currency.cny

cny_totals :
    map (λ t. t.gross_minor) (rows_in (summary no_report_filter four_orders one_refund))
    ≡ 1250 ∷ 700 ∷ []
unfolding summary values str_eq
cny_totals = refl

-- A filter for another merchant changes nothing in a summary.
other_merchant :
    rows_in
      (summary (record no_report_filter { merchant_id = some "nobody" }) four_orders one_refund)
    ≡ rows_in (summary no_report_filter four_orders one_refund)
unfolding summary values str_eq
other_merchant = refl
