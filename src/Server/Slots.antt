-- ===== src/Server/Slots.antt =====
-- `_add_client`, `_remove_client` and `_is_valid_client` of chat_server.c.
pub mod Valid
pub mod Changes
pub mod AddRemove
use mogakso.Common.{
  ltb, leb, if◌then◌else◌, replicate, ℤ, pos, negsuc, eqb_ℤ, codes, ℕ, zero, suc, ◌+◌, ◌-◌, Bool,
  true, false, Option, none, some, List, ◌∷◌,
}
use mogakso.Os.{opened, closed, sent, connect_callback, Os}
use mogakso.Protocol.Parser.{init_parser}
use mogakso.Server.State.{
  ClientInfo, Revents, Poller, ServerContext, max_fd_limit, first_slot, enomem, sizeof_parser,
  update, logged, handle_error,
}

-- `for (int i = 3; i < max_clients + 3; ++i)` up to the first poller whose fd is -1.
unfoldable pub find_free : ℕ → ℕ → (ℕ → Poller) → Option ℕ
find_free zero i pollers = none
find_free (suc rounds) i pollers =
    if eqb_ℤ (pollers i).fd (negsuc 0) then some i else find_free rounds (i + 1) pollers

-- "server is already filled up. please try again later."
abbrev pub full_message : List ℕ
full_message = codes "server is already filled up. please try again later."

module _ {Q : Type 0} (os : Os) where
  -- `stx->clients[client_index]` before its parser is allocated.
  abbrev pub new_client : ServerContext Q → ℕ → ClientInfo
  new_client stx fd = record {
    socket_fd = pos fd;
    ip_addr = os.peer_ip stx.log;
    client_parser = none;
  }

  -- An accepted descriptor gets the slot at `poller_index`, if there is memory for a parser.
  unfoldable pub placed : ServerContext Q → ℕ → ℕ → ServerContext Q
  placed stx fd poller_index =
      let client_index = poller_index - first_slot in
      record stx {
        pollers =
            update stx.pollers poller_index
              (record (stx.pollers poller_index) { fd = pos fd; events = true });
        clients =
            update stx.clients client_index
              (record (new_client stx fd) { client_parser = some init_parser });
        client_count = stx.client_count + 1;
        client_map = update stx.client_map fd (some client_index);
        log = connect_callback (pos fd) ∷ stx.log;
      }

  -- If there is none, the slot is given up and the descriptor closed.
  unfoldable pub unplaced : ServerContext Q → ℕ → ℕ → ServerContext Q
  unfolding handle_error
  unplaced stx fd poller_index =
      logged
        (handle_error
          (record stx {
            pollers =
                update stx.pollers poller_index
                  (record (stx.pollers poller_index) { fd = negsuc 0; events = true });
            clients = update stx.clients (poller_index - first_slot) (new_client stx fd);
          })
          enomem)
        (closed (pos fd))

  unfoldable pub place_client : ServerContext Q → ℕ → ℕ → ServerContext Q
  place_client stx fd poller_index =
      if os.calloc_ok stx.log sizeof_parser
      then placed stx fd poller_index
      else unplaced stx fd poller_index

  unfoldable pub add_accepted : ServerContext Q → ℕ → ServerContext Q
  unfolding handle_error place_client find_free
  add_accepted stx fd =
      if leb max_fd_limit fd
      then logged (handle_error stx (os.errno stx.log)) (closed (pos fd))
      else if leb stx.max_clients stx.client_count
      then logged (logged stx (sent (pos fd) full_message (os.send stx.log (pos fd) full_message)))
          (closed (pos fd))
      else elim (find_free stx.max_clients first_slot stx.pollers) [
        | none ↦ logged stx (closed (pos fd))
        | some poller_index ↦ place_client stx fd poller_index
      ]

  unfoldable pub add_client : ServerContext Q → ServerContext Q
  unfolding handle_error add_accepted
  add_client stx = elim (os.accept stx.log) [
    | negsuc _ ↦ handle_error stx (os.errno stx.log)
    | pos fd ↦ add_accepted (logged stx (opened (pos fd))) fd
  ]

abbrev pub no_events : Revents
no_events = record { pollin = false; broken = false }

-- After `memset(client, 0, sizeof(client_info_t))`.
abbrev pub zero_client : ClientInfo
zero_client = record { socket_fd = pos 0; ip_addr = replicate 16 0; client_parser = none }

module _ {Q : Type 0} where
  unfoldable pub remove_fd : ServerContext Q → ℕ → ℤ → ServerContext Q
  remove_fd stx poller_index (negsuc _) = stx
  remove_fd stx poller_index (pos fd) = record stx {
    client_map = if ltb fd max_fd_limit then update stx.client_map fd none else stx.client_map;
    pollers =
        update stx.pollers poller_index
          (record (stx.pollers poller_index) { fd = negsuc 0; revents = no_events });
    clients = update stx.clients (poller_index - first_slot) zero_client;
    client_count = stx.client_count - 1;
    log = closed (pos fd) ∷ stx.log;
  }

  unfoldable pub remove_client : ServerContext Q → ℕ → ServerContext Q
  unfolding remove_fd
  remove_client stx poller_index = remove_fd stx poller_index (stx.pollers poller_index).fd

  unfoldable pub is_valid_client : ServerContext Q → ℤ → Bool
  is_valid_client stx (negsuc _) = false
  is_valid_client stx (pos fd) =
      if leb max_fd_limit fd
      then false
      else elim (stx.client_map fd) [ none ↦ false | some _ ↦ true ]
