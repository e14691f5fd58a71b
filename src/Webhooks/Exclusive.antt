-- ===== src/Webhooks/Exclusive.antt =====
-- Workers that claim and send deliveries, interleaved: none sends what another is sending.
use zoo.Base.{string_eq}
