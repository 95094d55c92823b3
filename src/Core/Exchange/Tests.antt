-- ===== src/Core/Exchange/Tests.antt =====
-- Concrete runs of the exchange, and its theorems at concrete inputs.
use smkvm.Base.{ℕ, ◌+◌, ◌≡◌, refl, inl, true, none, some, List, [], ◌∷◌, arith}
use smkvm.Base.Sets
use smkvm.Base.Maps
use smkvm.Proto.Msg.{ClipSeq, text, png, clip_offer, clip_request, clip_chunk}
use smkvm.Core.Exchange.State.{
  ok, Input, peer_up, peer_gone, from_peer, wanted, send, offer_locally, deliver, ticket, Exchange,
  new,
}
use smkvm.Core.Exchange.Serve.{forget, offer}
use smkvm.Core.Exchange.Handle.{handle}
use smkvm.Core.Exchange.Effects.{forgotten, forget_effect}
use smkvm.Core.Exchange.Tickets.{held_tickets, answers}
use smkvm.Core.Exchange.Answers.{handle-answers_once}
use smkvm.Core.Exchange.Invariant.{Inv}
use smkvm.Core.Exchange.Invariant.Histories.{handle-Inv, run, quiet_answered}
use smkvm.Core.Exchange.Conversation.{converse, completed}
use smkvm.Core.Exchange.Conversation.Completes.{fetch_completes}

abbrev copied : ClipSeq
copied = record { device = 2; counter = 1 }

-- A client, machine 1, that holds the text offered by machine 2 and fetches it for one paste.
abbrev pasting : Exchange
pasting = record {
  me = 1;
  peers = 2 ∷ 3 ∷ [];
  counter = 0;
  allowed = text ∷ png ∷ [];
  max_bytes = 1000;
  enabled = true;
  local = none;
  remote = some (record { seq = copied; from = 2; formats = text ∷ []; placed = 0 });
  cache = [];
  reading = [];
  fetching = ((copied, text), record { from = 2; buf = [] }) ∷ [];
  waiting = record { seq = copied; format = text; who = ticket 7 } ∷ [];
}

pasting-Inv : Inv pasting
unfolding Maps.get
pasting-Inv = record {
  alone = inl refl;
  tidy = record {
    reads = tt;
    fetches = (refl, tt);
    cached = tt;
    buffered = (omega arith, tt);
    sized = tt;
    covered = (refl, tt);
  };
}

abbrev session : List (Input × ℕ)
session =
    (peer_up 2, 0)
    ∷ (from_peer 2 (clip_offer (offer copied (text ∷ []))), 1)
    ∷ (wanted 7 copied text, 2)
    ∷ (from_peer 2 (clip_chunk copied text 0 (1 ∷ 2 ∷ []) true), 3)
    ∷ []

-- A paste is answered with what the chunk brought.
session-run :
    (run session (new 1 (text ∷ []) 1000)).1
    ≡ offer_locally copied (text ∷ [])
      ∷ send 2 (clip_request copied text 0)
      ∷ deliver 7 (ok (1 ∷ 2 ∷ []))
      ∷ []
unfolding run handle new offer Maps.get Maps.insert Maps.remove Sets.insert
session-run = refl

handle-answers_once_example :
    let r = handle (peer_gone 2) 5 pasting in held_tickets 7 r.self.waiting + answers 7 r.out ≡ 1
handle-answers_once_example = handle-answers_once 7 (peer_gone 2) 5 pasting

handle-Inv_example : Inv (handle (peer_gone 2) 5 pasting).self
handle-Inv_example = handle-Inv (peer_gone 2) 5 pasting pasting-Inv

quiet_answered_example : answers 7 (run session (new 1 (text ∷ []) 1000)).1 ≡ 1
unfolding run handle new offer Maps.get Maps.insert Maps.remove Sets.insert
quiet_answered_example = quiet_answered 7 session 1 (text ∷ []) 1000 refl refl

forget_effect_example :
    (forget copied (record { self = pasting; out = [] })).self ≡ forgotten copied pasting
forget_effect_example = forget_effect copied (record { self = pasting; out = [] })

fetch_completes_example :
    converse 1 2 (copied, text) (5 ∷ 6 ∷ 7 ∷ []) 9 0 pasting
    ≡ completed (copied, text) (5 ∷ 6 ∷ 7 ∷ []) pasting
unfolding Maps.get
fetch_completes_example =
    fetch_completes 0 2 (copied, text) (5 ∷ 6 ∷ 7 ∷ []) 9 0 pasting refl (omega arith) (omega arith)
      (omega arith)
