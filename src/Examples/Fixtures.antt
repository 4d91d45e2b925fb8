-- ===== src/Examples/Fixtures.antt =====
-- A system that answers, a queue as a list, and a server with one client in two slots.
use mogakso.Server.EventLoop.Retries.{Settles}
use mogakso.Server.Slots.Valid.{used, Occupied, IsValid}
use mogakso.Protocol.Parser.Live.{init_parser-IsLive}
use mogakso.Protocol.Parser.{init_parser}
use mogakso.Command.{Command}
use mogakso.Common.{
  ◌==◌, if◌then◌else◌, ne→==_false, Bool-cases, lt_eq_gt, length, All, ℤ, pos, negsuc, ℕ, ◌<◌, ◌≡◌,
  refl, ap, subst, inl, inr, Bool, true, false, Option, none, some, List, [], ◌∷◌, ◌++◌, arith,
}
use mogakso.Os.{Received, got_bytes, end_of_stream, recv_failed, is_open, Os, Sane}
use mogakso.Server.State.{stopped, Revents, builtin, Registration, Fifo, ServerContext}
use mogakso.Server.Slots.{no_events, zero_client}

-- Everything that is offered is sent; what is received is the frame of a text of one byte.
abbrev pub obliging : Os
obliging = record {
  send = λ log fd offered. pos (length offered);
  recv = λ log fd. got_bytes 1 (0 ∷ 0 ∷ 0 ∷ 1 ∷ 104 ∷ []);
  write = λ log fd. pos 1;
  read = λ log fd. pos 1;
  accept = λ log. if is_open (pos 8) log then negsuc 0 else pos 8;
  peer_ip = λ log. [];
  interrupted = λ log. false;
  errno = λ log. 0;
  calloc_ok = λ log n. true;
}

abbrev bytes_in : Received → List ℕ
bytes_in (got_bytes b bs) = b ∷ bs
bytes_in end_of_stream = []
bytes_in recv_failed = []

abbrev magnitude : ℤ → ℕ
magnitude (pos n) = n
magnitude (negsuc n) = n

pub obliging-Sane : Sane obliging
obliging-Sane = record {
  accept_new = λ log fd e. elim (Bool-cases (is_open (pos 8) log)) [
    | inl open_8 ↦ cc (rw open_8 at e)
    | inr free ↦ let same : fd ≡ 8 = cc (rw free at e) in rw same free
  ];
  send_le = λ log fd offered n e. omega (arith, ap magnitude e);
  recv_bytes = λ log fd b bs e.
      subst (λ xs. All (λ x. x < 256) xs) (ap bytes_in e)
        (
          omega arith,
          (omega arith, (omega arith, (omega arith, (omega arith, (omega arith, tt))))),
        );
}

-- Nothing is interrupted.
pub obliging-Settles : Settles obliging 1
obliging-Settles = record {
  reads = λ fd log. (0, omega arith, refl);
  writes = λ fd log. (0, omega arith, refl);
}

abbrev pop_list : List Command → Option Command × List Command
pop_list [] = (none, [])
pop_list (c ∷ cs) = (some c, cs)

abbrev empty_list : List Command → Bool
empty_list [] = true
empty_list (c ∷ cs) = false

abbrev pub list_fifo : Fifo (List Command)
list_fifo = record {
  push = λ q c. q ++ c ∷ [];
  pop = pop_list;
  is_empty = empty_list;
  contents = λ q. q;
  push_lem = λ q c. inl refl;
  pop_nil = λ q e. rw e;
  pop_cons = λ q c cs e. rw e (refl, refl);
  is_empty_nil = λ q e. rw e;
  is_empty_cons = λ q c cs e. rw e;
}

abbrev pub quiet : Registration
quiet = record { handler = builtin; user_data = none }

abbrev pub text_waits : Revents
text_waits = record { pollin = true; broken = false }

-- Descriptor 7 is the client's, in the first of two slots.
abbrev pub one_client : ServerContext (List Command)
one_client = record {
  listening_socket_fd = pos 3;
  port = 8080;
  clients = λ i.
      if i == 0
      then record { socket_fd = pos 7; ip_addr = []; client_parser = some init_parser }
      else zero_client;
  client_map = λ fd. if fd == 7 then some 0 else none;
  max_clients = 2;
  client_count = 1;
  pollers = λ j.
      if j == 3
      then record { fd = pos 7; events = true; revents = text_waits }
      else if j == 1
      then record { fd = pos 4; events = true; revents = no_events }
      else record { fd = negsuc 0; events = true; revents = no_events };
  shutdown_read = pos 4;
  shutdown_write = pos 5;
  command_read = pos 6;
  command_write = pos 9;
  command_queue = [];
  has_thread = false;
  server_state = stopped;
  on_connect = quiet;
  on_complete_message = quiet;
  on_disconnect = quiet;
  on_error = quiet;
  log = [];
}

abbrev pub client_slot : Occupied one_client 3 7
client_slot = record {
  polled = refl;
  known = refl;
  below = omega arith;
  mapped = refl;
  parser = init_parser;
  has_parser = refl;
  live = init_parser-IsLive;
}

pub one_client-IsValid : IsValid one_client
unfolding used
one_client-IsValid = record {
  slots = λ j lo hi. elim (lt_eq_gt j 3) [
    | inl lt ↦ absurd (omega arith)
    | inr (inl e) ↦ rw e (inr (7, client_slot))
    | inr (inr gt) ↦ inl (rw (ne→==_false j 3 (omega arith), ne→==_false j 1 (omega arith)))
  ];
  map_back = λ fd i e. elim (lt_eq_gt fd 7) [
    | inl lt ↦ absurd (ground arith)
    | inr (inl same) ↦ (ground arith, ground arith)
    | inr (inr gt) ↦ absurd (ground arith)
  ];
  count = refl;
}
