-- ===== src/Core/Transfer/Tests.antt =====
-- Runs of the file relay on concrete inputs, and instances of its theorems.
use smkvm.Base.{◌+◌, ◌≤◌, ◌⊎◌, ◌≡◌, refl, none, some, true, List, [], ◌∷◌}
use smkvm.Base.Equality.{nat_eq, nat_ord, pair_eq, pair_ord}
use smkvm.Base.Lists.{any}
use smkvm.Base.Maps
use smkvm.Proto.Msg.{TransferId, id_eq, id_ord, file_request, file_chunk}
use smkvm.Core.Transfer.{
  Input, peer_up, peer_gone, from_peer, pull, send, Piece, Transfer, new, handle, source_of,
  peer_said, requested, relay_request, chunk_arrived,
}
use smkvm.Core.Transfer.Pulls.{
  held, asks, asked, delivered, delivered-handle, session, delivered-session,
}
use smkvm.Core.Transfer.Relays.{handle-answers}
use smkvm.Core.Transfer.Sources.{IsLinked}
use smkvm.Core.Transfer.Departures.{handle-IsLinked}
use smkvm.Core.Transfer.Told.{answers}

abbrev photos : TransferId
photos = record { device = 2; counter = 7 }

abbrev piece : Piece
piece = (photos, (0, 4096))

-- The server 1 with the machines 2, 3 and 4, which are up.
abbrev server : Transfer
server = record {
  me = 1;
  hub = none;
  peers = 2 ∷ 3 ∷ 4 ∷ [];
  relays = (piece, 3) ∷ [];
  pulling = [];
  awaiting = [];
}

abbrev arrival : Input
arrival = from_peer 2 (file_chunk photos 0 4096 (9 ∷ []) true)

-- The piece goes back to the machine that asked for it.
relayed : (handle arrival server).1 ≡ send 3 (file_chunk photos 0 4096 (9 ∷ []) true) ∷ []
unfolding handle peer_said chunk_arrived Maps.get
relayed = refl

-- A second machine's request for the same piece takes the first one's place.
overtaken : (handle (from_peer 4 (file_request photos 0 4096)) server).0.relays ≡ (piece, 4) ∷ []
unfolding handle peer_said requested relay_request source_of Maps.insert
overtaken = refl

handle-answers_example :
    (Maps.get piece (handle arrival server).0.relays ≡ some 3)
    ⊎ (any (answers piece 3) (handle arrival server).1 ≡ true)
unfolding Maps.get
handle-answers_example = handle-answers piece 3 arrival server refl refl

delivered-handle_example :
    delivered piece (handle arrival server).1 + held piece (handle arrival server).0
    ≤ asks piece arrival + held piece server
delivered-handle_example = delivered-handle piece arrival server

abbrev pulls : List Input
pulls = peer_up 2 ∷ pull photos 0 4096 ∷ arrival ∷ arrival ∷ []

delivered-session_example : delivered piece (session pulls (new 1 none)).1 ≤ asked piece pulls
delivered-session_example = delivered-session piece 1 pulls none

handle-IsLinked_example : IsLinked (handle (peer_gone 2) server).0
handle-IsLinked_example = handle-IsLinked (peer_gone 2) server refl ((refl, tt), (tt, tt))
