-- ===== src/Webhooks/Examples.antt =====
-- One delivery that a receiver refuses, and the theorem at it.
use zoo.Base.{◌*◌, ◌++◌, string_eq, ◌≡◌, refl, true, none, some, [], ◌∷◌, ltb}
use zoo.Base.Dict.{get, put, erase}
use zoo.Webhooks.{
  Delivery, pending, failed, claim_webhook_deliveries, finish_webhook_delivery, deliver_due,
  deliver_all, answered, gone, batch_size, lease_seconds, timeout_seconds,
}
use zoo.Webhooks.Sending.{World, claims}

abbrev fresh : Delivery
fresh = record {
  webhook_id = "h1";
  event_id = "e1";
  status = pending;
  attempts = 0;
  next_attempt_at = 100;
  last_error = none;
  response_status = none;
  delivered_at = none;
}

abbrev refused : Delivery
refused = record fresh {
  attempts = 1;
  next_attempt_at = 260;
  last_error = some "HTTP 500: ";
  response_status = some 500;
}

refused_run :
    deliver_due 200 (λ id. answered 500 "HTTP 500: ") (("d1", fresh) ∷ [])
    ≡ (("d1", refused) ∷ [], 1)
unfolding deliver_due deliver_all claim_webhook_deliveries finish_webhook_delivery get put
refused_run = refl

gone_run : deliver_due 200 (λ id. gone) (("d1", fresh) ∷ []) ≡ (
  (
    "d1",
    record fresh {
      status = failed;
      attempts = 1;
      next_attempt_at = 200;
      last_error = some "the webhook was disabled or removed";
    },
  )
      ∷ [],
  1,
)
unfolding deliver_due deliver_all claim_webhook_deliveries finish_webhook_delivery get put
gone_run = refl

last_run :
    deliver_due 200 (λ id. answered 500 "HTTP 500: ") (("d1", record fresh { attempts = 5 }) ∷ [])
    ≡ (("d1", record refused { status = failed; attempts = 6; next_attempt_at = 200 }) ∷ [], 1)
unfolding deliver_due deliver_all claim_webhook_deliveries finish_webhook_delivery get put
last_run = refl

-- A batch may take longer than its lease.
slow_batch : ltb lease_seconds (batch_size * timeout_seconds) ≡ true
slow_batch = refl

abbrev before : World
before = record { table = ("d1", fresh) ∷ []; held = []; clock = 200 }

abbrev sending : World
sending = record before { table = (claims before).0; held = (claims before).1 ++ [] }

abbrev sent : World
sent = record sending {
  table =
      finish_webhook_delivery 200 (record fresh { next_attempt_at = 320 })
        (answered 500 "HTTP 500: ") "d1" sending.table;
  held = erase sending.held "d1";
}
