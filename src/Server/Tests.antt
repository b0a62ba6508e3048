-- ===== src/Server/Tests.antt =====
-- Clients that talk to a session (source/controller/WebSocketController.cpp), and the theorems there.
use idtx_core.Base.{ℕ, length, ◌+◌, ◌≤◌, ◌≡◌, refl, false, none, some, List, [], ◌∷◌, Str, codes}
use idtx_core.Session.{collaborative_edit, single_edit, join, ack}
use idtx_core.Session.Registry.{new_session, attach_client, is_busy, insert_client}
use idtx_core.Session.Sample.{box, small}
use idtx_core.Server.{Entry, admitted, full, push, submit_to, to_submit_status}
use idtx_core.Server.Socket.{
  xform_update, rejection_reason, after_update, on_message, on_open, after_attach, after_join,
}
use idtx_core.Server.Tally.{tally}
use idtx_core.Server.Talk.{Event, opens, says, consumes, closes, tears_down, happens, happen}
use idtx_core.Server.Editors.{one_editor}
use idtx_core.Server.Requests.{talk_of, acknowledged, pending, requests_acked}

-- Connections 1 and 2 are clients.
abbrev entry : Entry small
entry = record {
  id = codes "s";
  usd_file = codes "box.usda";
  auto_commit = false;
  session = record (new_session small [] collaborative_edit 0) { clients = 1 ∷ 2 ∷ [] };
  normal = [];
  priority = [];
}

-- An update that is queued, and one that is not.
abbrev some_updates : List (Event (Str × ℕ))
some_updates =
    says 1 (xform_update (box, 5) 7 0) admitted admitted
    ∷ says 1 (xform_update (box, 6) 8 0) full admitted
    ∷ consumes
    ∷ closes 2 10
    ∷ tears_down
    ∷ says 1 (xform_update (box, 7) 9 0) admitted admitted
    ∷ []

full_test :
    (on_message (some entry) 1 (xform_update (box, 6) 8 0) full admitted).1
    ≡ (1, ack 8 (some (codes "queue_full")) 0) ∷ []
unfolding on_message after_update submit_to to_submit_status push rejection_reason
full_test = refl

requests_acked_example :
    tally 1 8 (happens (talk_of entry) some_updates).received
    ≡ acknowledged 1 8 (happens (talk_of entry) some_updates)
      + pending 1 8 (happens (talk_of entry) some_updates).live
unfolding new_session
requests_acked_example = requests_acked entry 1 some_updates 8 refl refl refl refl refl

-- Two connections that OnAccept let in open at the same time.
abbrev alone : Entry small
alone = record entry { session = new_session small [] single_edit 0 }

abbrev both_open : List (Event (Str × ℕ))
both_open = opens 1 admitted ∷ opens 2 admitted ∷ []

abbrev one_open : Entry small
one_open = record alone {
  session = record alone.session { clients = 1 ∷ []; empty_since = none };
  normal = join 1 ∷ [];
}

second_closed : (happens (talk_of alone) both_open).live ≡ some one_open
unfolding happens happen on_open after_attach after_join attach_client is_busy insert_client
    submit_to push to_submit_status new_session
second_closed = refl

one_editor_example : length one_open.session.clients ≤ 1
unfolding new_session
one_editor_example =
    one_editor (talk_of alone) alone one_open both_open refl refl second_closed refl
