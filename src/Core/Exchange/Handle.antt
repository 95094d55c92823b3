-- ===== src/Core/Exchange/Handle.antt =====
-- `peer_said` and `handle` of exchange.rs.
use smkvm.Base.{ℕ, []}
use smkvm.Base.Equality.{nat_eq, nat_ord, pair_eq, pair_ord}
use smkvm.Layout.Model.{DeviceId}
use smkvm.Proto.Msg.{
  seq_eq, seq_ord, format_eq, format_ord, Bulk, clip_offer, clip_request, clip_chunk,
  clip_unavailable,
}
use smkvm.Core.Exchange.State.{
  Input, peer_up, peer_gone, local_changed, from_peer, wanted, read_done, Exchange, Run,
}
use smkvm.Core.Exchange.Machines.{on_peer_up, on_peer_gone}
use smkvm.Core.Exchange.Offers.{on_local_changed, offered}
use smkvm.Core.Exchange.Fetches.{requested, on_wanted, chunk_arrived, unavailable, on_read_done}

unfoldable pub peer_said : DeviceId → Bulk → ℕ → Run → Run
unfolding offered requested chunk_arrived unavailable
peer_said from (clip_offer o) now r = offered from o now r
peer_said from (clip_request seq format offset) now r = requested from (seq, format) offset r
peer_said from (clip_chunk seq format offset bytes last) now r =
    chunk_arrived from (seq, format) offset bytes last r
peer_said from (clip_unavailable seq format reason) now r = unavailable from (seq, format) reason r
peer_said from _ now r = r

unfoldable pub dispatch : Input → ℕ → Run → Run
unfolding on_peer_up on_peer_gone on_local_changed peer_said on_wanted on_read_done
dispatch (peer_up peer) now r = on_peer_up peer r
dispatch (peer_gone peer) now r = on_peer_gone peer r
dispatch (local_changed formats) now r = on_local_changed formats now r
dispatch (from_peer from msg) now r = peer_said from msg now r
dispatch (wanted t seq format) now r = on_wanted t (seq, format) r
dispatch (read_done seq format result) now r = on_read_done (seq, format) result r

-- `handle` starts from an empty list of outputs.
unfoldable pub handle : Input → ℕ → Exchange → Run
unfolding dispatch
handle input now x = dispatch input now (record { self = x; out = [] })
