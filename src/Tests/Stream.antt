-- ===== src/Tests/Stream.antt =====
-- The receiver of a stream.
use cloud_credit_system.Common.{◌≤◌, List, [], ◌∷◌, length, nat_key, ◌≢◌}
use cloud_credit_system.Domain.Resource.{resource_key}
use cloud_credit_system.Gateway.Dedup.{new_mem_dedup}
use cloud_credit_system.Gateway.Stream.{
  StreamEvent, message, taken, asked, stream_run, opened, sig_ch_size,
}
use cloud_credit_system.Gateway.Stream.Queue.{Ascending}
use cloud_credit_system.Gateway.Stream.Order.{channel_in_order}
use cloud_credit_system.Tests.Gateway.{request}

abbrev events : List StreamEvent
events =
    message 10 request
    ∷ message 11 (record request { sequence_number = 9 })
    ∷ asked (record { cluster = 5; seq = 12; now = 11 })
    ∷ taken
    ∷ message 12 request
    ∷ []

five : request.cluster_id ≢ 0
five e = absurd (cc e)

channel_in_order_example :
    let s = stream_run events (opened (new_mem_dedup 50) [] 0) in
    Ascending s.sig_ch × (length s.sig_ch ≤ sig_ch_size)
channel_in_order_example =
    channel_in_order (new_mem_dedup 50) [] 0 events (five, (five, (tt, (tt, (five, tt)))))
