-- ===== src/Tests/Hubs.antt =====
-- A hub of src/rpc/hub.cc at concrete inputs.
use indecorous.Base.{none, [], ◌∷◌}
use indecorous.Rpc.Wire.{ReadMessage, buffer_of}
use indecorous.Rpc.Message.{no_id}
use indecorous.Rpc.Hub.{Hub}

-- A hub that waits for the reply to the request 6.
abbrev one_open : Hub
one_open = record {
  next_request = 7;
  next_task = 0;
  rpcs = (44, 1) ∷ [];
  replies = record { request = 6; value = none } ∷ [];
  spawned = [];
}

abbrev reply : ReadMessage
reply = record {
  buffer = buffer_of (1 ∷ []);
  offset = 0;
  source_id = 0;
  rpc_id = no_id;
  request_id = 7;
}
